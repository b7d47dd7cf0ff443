-- ===== src/User.antt =====
-- The user programs of syscalls: what they ask of the kernel, as an interface. `K` is the state
-- behind the calls. A pointer is the memory behind it; a call that stores gives the memory back.
pub mod Support
pub mod Strings
pub mod Small
pub mod Cat
pub mod Grep
pub mod Shell
pub mod Pingpong
pub mod OnKernel
pub mod Syserr
use project_my_os.Base.{ℕ, ℤ, Bytes, Option}
use project_my_os.SystemCall.{Outcome}
use project_my_os.SystemCall.Dispatch.{Registers}

-- The calls of syscalls/ece391syscall.h that the programs make, and a call by its number in %eax
-- with the program's memory. `vidmap` takes the pointer as an address, and gives what it stores there.
pub record System (K : Type 0) : Type 0 where
  pub read : K → ℤ → Bytes → ℕ → Outcome (K × ℤ × Bytes)
  pub write : K → ℤ → Bytes → ℤ → Outcome (K × ℤ)
  pub open_file : K → Bytes → Outcome (K × ℤ)
  pub close : K → ℤ → Outcome (K × ℤ)
  pub getargs : K → Bytes → ℕ → Outcome (K × ℤ × Bytes)
  pub execute : K → Bytes → Outcome (K × ℤ)
  pub vidmap : K → ℕ → Outcome (K × ℤ × Option ℕ)
  pub call_sys : K → Bytes → Registers → Outcome (K × Bytes × ℤ)
