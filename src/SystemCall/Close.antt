-- ===== src/SystemCall/Close.antt =====
-- close of student-distrib/systemcall.c.
use project_my_os.Base.{
  ℕ, ◌≤◌, ◌<◌, ◌≡◌, ◌≢◌, ◌⊎◌, inl, inr, refl, none, some, [], pos, minus_one, arith, Bytes,
  ltb_of_le,
}
use project_my_os.Str.{IsString, bytes_of}
use project_my_os.Str.Laws.{strcpy_lem, bytes_of-IsString, nonzero}
use project_my_os.SystemCall.{
  rtc_t, file_t, directory_t, FileDescriptor, Kernel, current, set_pcb, returns, or_endless, ◌>>>◌,
}
use project_my_os.SystemCall.Files.{set_fd, close_op, close}
use project_my_os.Rtc.{rtc_close}
use project_my_os.FileSystem.{file_close, directory_close}
use project_my_os.SystemCall.Descriptors.{fd_of, set_fd-own, set_fd-other}

-- A descriptor that `close` takes back.
pub record IsClosable (d : FileDescriptor) : Type 0 where
  pub in_use : d.flags ≡ 1
  pub operations :
      (d.file_operation ≡ some rtc_t)
      ⊎ (d.file_operation ≡ some file_t)
      ⊎ (d.file_operation ≡ some directory_t)

close_op_lem :
    (k : Kernel) (d : FileDescriptor) → IsClosable d → close_op k d.file_operation ≡ returns (pos 0)
unfolding close_op rtc_close file_close directory_close
close_op_lem k d c = elim c.operations [
  | inl e ↦ rw e refl
  | inr (inl e) ↦ rw e refl
  | inr (inr e) ↦ rw e refl
]

empty-IsString : IsString (bytes_of []) 0
unfolding nonzero
empty-IsString = bytes_of-IsString [] refl (omega arith)

-- What `close` leaves in a descriptor.
closed : Bytes → FileDescriptor
closed name = record {
  file_operation = none;
  file_name = name;
  inode = 0;
  fileposition = 0;
  flags = 0;
}

close-closed :
    (k : Kernel) (fd : ℕ)
    → 2 ≤ fd
    → fd < 8
    → IsClosable (fd_of k fd)
    → (name : Bytes) × (close k (pos fd)
        ≡ returns (set_pcb k (set_fd (current k) fd (closed name)), pos 0))
unfolding close closed
close-closed k fd a b c =
    let (out, e, inside, after) =
      strcpy_lem (fd_of k fd).file_name (bytes_of []) 0 empty-IsString in
    (
      out,
      rw (
        ltb_of_le fd 2 a,
        ltb_of_le 7 fd (omega arith),
        c.in_use,
        close_op_lem k (fd_of k fd) c,
        e,
        or_endless,
        ◌>>>◌,
      ),
    )

-- Closing a descriptor from 2 to 7 that is open on a file, a directory or the clock returns 0,
-- frees that descriptor, and leaves every other one as it was.
pub close_lem :
    (k : Kernel) (fd : ℕ)
    → 2 ≤ fd
    → fd < 8
    → IsClosable (fd_of k fd)
    → (k' : Kernel) × (close k (pos fd) ≡ returns (k', pos 0))
      × ((fd_of k' fd).flags ≡ 0)
      × ((fd_of k' fd).file_operation ≡ none)
      × ((j : ℕ) → j ≢ fd → fd_of k' j ≡ fd_of k j)
unfolding closed
close_lem k fd a b c =
    let (name, e) = close-closed k fd a b c in
    (
      set_pcb k (set_fd (current k) fd (closed name)),
      e,
      rw (set_fd-own k fd (closed name)) refl,
      rw (set_fd-own k fd (closed name)) refl,
      λ j h. set_fd-other k fd j (closed name) h,
    )

-- `close` refuses the first two descriptors, a number above 7 and a descriptor that is not in use,
-- and changes nothing.
pub close_refuses :
    (k : Kernel) (fd : ℕ)
    → (fd < 2) ⊎ (7 < fd) ⊎ ((fd_of k fd).flags ≢ 1)
    → close k (pos fd) ≡ returns (k, minus_one)
unfolding close
close_refuses k fd bad = ground arith
