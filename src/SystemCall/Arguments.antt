-- ===== src/SystemCall/Arguments.antt =====
-- The arguments of a program, from execute to getargs of student-distrib/systemcall.c.
use project_my_os.Base.{
  ℕ, ◌≤◌, ◌<◌, ◌≡◌, false, some, ltb, if◌then◌else◌, zero_loop, zero_loop_lem, pos, arith, Bytes,
  ap, ◌∙◌,
}
use project_my_os.Str.{strncpy, IsString}
use project_my_os.Str.Laws.{strncpy_lem}
use project_my_os.Paging.{Layout}
use project_my_os.SystemCall.{Kernel, current}
use project_my_os.SystemCall.Process.{enters_user, parse_command, execute, getargs}
use project_my_os.SystemCall.Position.{IsFile}
use project_my_os.SystemCall.Loading.{HasArguments}
use project_my_os.SystemCall.Execute.{IsElf, execute_runs}

given :
    (done : Kernel) (args : Bytes) (m k : ℕ)
    → HasArguments done args m
    → IsString args m
    → k < 1024
    → (current done).arg k ≡ (if ltb k m then args k else 0)
given done args m k h v l =
    ap (λ a. a k) h.copied
    ∙ strncpy_lem (zero_loop 1024 0 h.before) args m m k v
    ∙ ground (arith, zero_loop_lem 1024 0 h.before k)

given-IsString :
    (done : Kernel) (args : Bytes) (m : ℕ)
    → HasArguments done args m
    → IsString args m
    → m < 1024
    → IsString (current done).arg m
given-IsString done args m h v small = record {
  nul = ground (arith, given done args m m h v small);
  chars = λ i l. ground (arith, given done args m i h v (omega arith), v.chars i l);
  fits = omega arith;
}

getargs_lem :
    (done : Kernel) (args buf : Bytes) (m nbytes : ℕ)
    → HasArguments done args m
    → m ≤ nbytes
    → getargs done (some buf) (pos nbytes) ≡ (pos 0, some (strncpy buf (current done).arg nbytes))
unfolding getargs
getargs_lem done args buf m nbytes h room =
    let e : ltb nbytes done.arg_size ≡ false = ground (arith, h.size) in rw e

copied_back :
    (done : Kernel) (args buf : Bytes) (m nbytes i : ℕ)
    → HasArguments done args m
    → IsString args m
    → m < 1024
    → strncpy buf (current done).arg nbytes i
      ≡ (if ltb i nbytes then if ltb i m then args i else 0 else buf i)
copied_back done args buf m nbytes i h v small = ground (
  arith,
  strncpy_lem buf (current done).arg m nbytes i (given-IsString done args m h v small),
  given done args m i h v,
)

-- A program that `execute` starts, under the conditions for that, with an argument string of less
-- than 1024 characters gets exactly these characters from `getargs` when it asks for at least that
-- many bytes, with NULs behind them up to the size it asks for, and nothing past that size is
-- written.
pub execute-getargs :
    (l : Layout) (k : Kernel) (esp ebp : ℕ) (stack command name args buf : Bytes)
    (m inode n nbytes : ℕ)
    → k.counter < 6
    → parse_command command stack ≡ some (name, args, m)
    → IsString name n
    → 0 < n
    → IsFile k.terminal.fs name inode
    → IsElf k.terminal.fs inode
    → IsString args m
    → m < 1024
    → m ≤ nbytes
    → (done : Kernel) × (entry : ℕ) × (execute l k esp ebp stack (some command)
        ≡ some (done, enters_user entry 0x083ffffc))
      × (out : Bytes) × (getargs done (some buf) (pos nbytes) ≡ (pos 0, some out))
      × ((i : ℕ) → out i ≡ (if ltb i nbytes then if ltb i m then args i else 0 else buf i))
execute-getargs l k esp ebp stack command name args buf m inode n nbytes room parsed v z f elf w
      small fits =
    let (done, runs, counted, image, h) =
      execute_runs l k esp ebp stack command name args m inode n room parsed small v z f elf in
    (
      done,
      _,
      runs,
      strncpy buf (current done).arg nbytes,
      getargs_lem done args buf m nbytes h fits,
      λ i. copied_back done args buf m nbytes i h w small,
    )
