-- ===== src/Tests/Strings.antt =====
-- The string functions of student-distrib/lib.c on short texts.
use project_my_os.Base.{ℕ, ◌≤◌, ◌≡◌, refl, true, some, [], Bytes, slice_of, is_zero, codes, arith}
use project_my_os.Str.{strncmp, itoa, IsString, bytes_of}
use project_my_os.Str.Laws.{bytes_of-IsString, nonzero}
use project_my_os.Str.Compare.{strncmp-zero}
use project_my_os.Str.Decimal.{parse, parse-itoa}
use project_my_os.Tests.Fixture.{small, bytes_of-IsBytes}

abbrev pub shell : Bytes
shell = bytes_of (codes "shell")

abbrev pub she : Bytes
she = bytes_of (codes "she")

pub shell-IsString : IsString shell 5
unfolding nonzero
shell-IsString = bytes_of-IsString (codes "shell") refl (omega arith)

pub she-IsString : IsString she 3
unfolding nonzero
she-IsString = bytes_of-IsString (codes "she") refl (omega arith)

parse-itoa_example :
    (out : Bytes) × (n : ℕ) × (itoa 48879 (bytes_of []) 16 ≡ some out)
    × IsString out n
    × (n ≤ 32)
    × (parse 16 out n ≡ 48879)
parse-itoa_example = parse-itoa 16 (omega arith) (omega arith) 48879 (bytes_of []) (omega arith)

strncmp-zero_example :
    (is_zero (strncmp shell she 5) ≡ true → slice_of shell 0 5 ≡ slice_of she 0 3)
    × (slice_of shell 0 5 ≡ slice_of she 0 3 → is_zero (strncmp shell she 5) ≡ true)
unfolding small
strncmp-zero_example =
    strncmp-zero shell she 5 3 (bytes_of-IsBytes (codes "shell") refl)
      (bytes_of-IsBytes (codes "she") refl) shell-IsString she-IsString
