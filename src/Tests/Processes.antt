-- ===== src/Tests/Processes.antt =====
-- execute and halt of student-distrib/systemcall.c on that kernel.
use project_my_os.Base.{◌≡◌, refl, some, [], arith, bit_and, codes}
use project_my_os.Str.{bytes_of}
use project_my_os.Paging.{directory_addr}
use project_my_os.SystemCall.{Kernel, current}
use project_my_os.SystemCall.Process.{enters_user, resumes, start_process, halt}
use project_my_os.SystemCall.Halt.{IsRunning, halt-start_process}
use project_my_os.SystemCall.Loading.{start_process_runs}
use project_my_os.Tests.Files.{frame-length, frame-name}
use project_my_os.Tests.Machine.{layout, empty_paging, kernel, frame-IsFile}

started :
    (done : Kernel) × (start_process layout kernel 0x7FE100 0x7FE180
        (bytes_of (codes "frame"))
        (bytes_of [])
        0x08048094
      ≡ some (done, enters_user 0x08048094 0x083ffffc))
started =
    let r =
      start_process_runs layout kernel 0x7FE100 0x7FE180 (bytes_of (codes "frame")) (bytes_of [])
        0x08048094 1 5 (omega arith) frame-name (omega arith) frame-IsFile
        (omega (arith, frame-length)) (omega arith) in
    (r.0, r.1)

kernel-IsRunning : IsRunning kernel 0x7FE100
kernel-IsRunning = record {
  some_process = omega arith;
  room = omega arith;
  own_stack = omega arith;
  number = refl;
}

halt-start_process_example :
    (back : Kernel) × (halt layout started.0 0x107 ≡ (back, resumes 0x7FE100 0x7FE180 7))
    × (back.counter ≡ 1)
    × (current back ≡ current kernel)
    × (back.paging.cr3 ≡ bit_and (directory_addr layout 0) 0xFFFFFFE7)
    × (back.paging.page_directories 0 ≡ empty_paging.page_directories 0)
halt-start_process_example =
    halt-start_process layout kernel 0x7FE100 0x7FE180 (bytes_of (codes "frame")) (bytes_of [])
      0x08048094 started.0 0x08048094 0x083ffffc 0x107 kernel-IsRunning (omega arith) started.1
