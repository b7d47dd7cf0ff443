-- ===== src/Keyboard/Tables.antt =====
-- The four scan code tables of student-distrib/keyboard.c. Codes past the listed ones give 0.
use project_my_os.Base.{ℕ, List, [], ◌∷◌, ◌++◌, codes, get_or}

-- `27, '1', …, '=', '\b', '\t'` behind the 0 of code 0.
abbrev digits_row : List ℕ
digits_row = 0 ∷ 27 ∷ (codes "1234567890-=" ++ (8 ∷ 9 ∷ []))

abbrev shift_digits_row : List ℕ
shift_digits_row = 0 ∷ 27 ∷ (codes "!@#$%^&*()_+" ++ (8 ∷ 9 ∷ []))

-- A 0 stands at the codes of control, the left shift, the right shift and alt.
unfoldable pub norm : List ℕ
norm =
    digits_row
    ++ (codes "qwertyuiop[]\n"
        ++ (0 ∷ (codes "asdfghjkl;'`" ++ (0 ∷ (codes "\\zxcvbnm,./" ++ (0 ∷ 42 ∷ 0 ∷ 32 ∷ []))))))

unfoldable pub cap_norm : List ℕ
cap_norm =
    digits_row
    ++ (codes "QWERTYUIOP[]\n"
        ++ (0 ∷ (codes "ASDFGHJKL:'`" ++ (0 ∷ (codes "\\ZXCVBNM,./" ++ (0 ∷ 42 ∷ 0 ∷ 32 ∷ []))))))

unfoldable pub shift_norm : List ℕ
shift_norm =
    shift_digits_row
    ++ (codes "QWERTYUIOP{}\n"
        ++ (0 ∷ (codes "ASDFGHJKL:\"~" ++ (0 ∷ (codes "\\ZXCVBNM<>?" ++ (0 ∷ 42 ∷ 0 ∷ 32 ∷ []))))))

unfoldable pub cap_shift : List ℕ
cap_shift =
    shift_digits_row
    ++ (codes "qwertyuiop{}\n"
        ++ (0 ∷ (codes "asdfghjkl:\"~" ++ (0 ∷ (codes "\\zxcvbnm<>?" ++ (0 ∷ 42 ∷ 0 ∷ 32 ∷ []))))))

-- `table[code]`
unfoldable pub key : List ℕ → ℕ → ℕ
key table code = get_or table code 0
