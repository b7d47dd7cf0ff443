-- ===== src/Tests/Descriptors.antt =====
-- read, open and close of student-distrib/systemcall.c on that kernel.
use project_my_os.Base.{
  ℕ, ◌+◌, ◌<◌, ◌≡◌, ◌≢◌, ◌⊎◌, inl, inr, refl, none, some, List, [], ◌++◌, pos, minus_one, arith,
  int8, ◌-ℤ◌, codes,
}
use project_my_os.Str.{strncmp, strncmp_loop, bytes_of}
use project_my_os.SystemCall.{Kernel, returns}
use project_my_os.SystemCall.Files.{open_fd, close, read}
use project_my_os.SystemCall.Descriptors.{fd_of, IsLowest, AllUsed, IsOpened, IsPlain, open_fd_lem}
use project_my_os.SystemCall.Close.{close_lem}
use project_my_os.SystemCall.Position.{IsReading}
use project_my_os.SystemCall.Sequence.{reads_lem}
use project_my_os.Tests.Files.{frame-name}
use project_my_os.Tests.Machine.{kernel, frame_found, frame-IsFile}

pub kernel-IsReading : IsReading kernel 2 1
kernel-IsReading = record {
  in_range = omega arith;
  in_use = omega arith;
  operations = refl;
  file = frame-IsFile;
}

reads_lem_example :
    (k' : Kernel) × (k'' : Kernel) × (xs : List ℕ) × (ys : List ℕ) × (a : ℕ) × (b : ℕ) × (read
        kernel
        (pos 2)
        (some (bytes_of []))
        (pos 3)
        []
      ≡ returns (k', pos a, xs))
    × (read k' (pos 2) (some (bytes_of [])) (pos 9) [] ≡ returns (k'', pos b, ys))
    × ((one : Kernel) × (read kernel (pos 2) (some (bytes_of [])) (pos 12) []
          ≡ returns (one, pos (a + b), xs ++ ys)))
reads_lem_example =
    reads_lem kernel 2 1 3 9 (bytes_of []) (bytes_of []) [] [] kernel-IsReading (omega arith)
      (omega arith) (omega arith)

frame-IsPlain : IsPlain (bytes_of (codes "frame"))
unfolding strncmp strncmp_loop int8 ◌-ℤ◌
frame-IsPlain = record { not_stdin = refl; not_stdout = refl }

open_fd_lem_example :
    (open_fd kernel (bytes_of (codes "frame")) ≡ returns (kernel, minus_one))
      × AllUsed (fd_of kernel) 2 6
    ⊎ (k' : Kernel) × (fd : ℕ) × (open_fd kernel (bytes_of (codes "frame")) ≡ returns (k', pos fd))
      × (fd < 8)
      × IsLowest (fd_of kernel) 2 fd
      × IsOpened (fd_of kernel fd) (fd_of k' fd) frame_found.0
      × ((j : ℕ) → j ≢ fd → fd_of k' j ≡ fd_of kernel j)
open_fd_lem_example =
    open_fd_lem kernel (bytes_of (codes "frame")) frame_found.0 5 frame-name (omega arith)
      frame-IsPlain frame_found.1

close_lem_example :
    (k' : Kernel) × (close kernel (pos 2) ≡ returns (k', pos 0))
    × ((fd_of k' 2).flags ≡ 0)
    × ((fd_of k' 2).file_operation ≡ none)
    × ((j : ℕ) → j ≢ 2 → fd_of k' j ≡ fd_of kernel j)
close_lem_example =
    close_lem kernel 2 (omega arith) (omega arith)
      (record { in_use = refl; operations = inr (inl refl) })
