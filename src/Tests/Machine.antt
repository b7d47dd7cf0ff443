-- ===== src/Tests/Machine.antt =====
-- A kernel that runs one process, with a file open.
use project_my_os.Base.{
  ℕ, ◌≡◌, refl, some, [], if◌then◌else◌, ◌==◌, arith, codes, read8, read32, slice_of,
}
use project_my_os.Str.{bytes_of}
use project_my_os.FileSystem.{
  Dentry, blank_dentry, read_dentry_by_name, success, dentry_name, dentry_inode,
}
use project_my_os.Paging.{Layout, Paging, shell_entry, absent_entry}
use project_my_os.SystemCall.{file_t, FileDescriptor, Kernel}
use project_my_os.SystemCall.Process.{stdin_fd, stdout_fd, free_fd}
use project_my_os.SystemCall.Position.{IsFile}
use project_my_os.FileSystem.Name.{read_dentry_by_name_found}
use project_my_os.Tests.Fixture.{frame_image, lengths, frame_image-NamesEnd}
use project_my_os.Tests.Files.{frame-blocks, frame-length, frame-name, frame-bytes}
use project_my_os.Tests.Display.{terminal}

abbrev pub layout : Layout
layout = record {
  page_table_shell = 0x410000;
  page_table_video = 0x411000;
  page_directories = 0x412000;
}

abbrev pub empty_paging : Paging
empty_paging = record {
  page_table_shell = shell_entry;
  page_table_video = shell_entry;
  page_directories = λ i j. absent_entry;
  page_dir_address = 0x412000;
  cr0 = 0x80000011;
  cr3 = 0x412000;
  cr4 = 0x10;
}

-- The third descriptor is open on the file "frame".
abbrev files : ℕ → FileDescriptor
files i =
    if i == 0
    then stdin_fd
    else if i == 1
    then stdout_fd
    else if i == 2
    then record {
      file_operation = some file_t;
      file_name = bytes_of (codes "frame");
      inode = 1;
      fileposition = 1;
      flags = 1;
    }
    else free_fd

-- The first process runs.
abbrev pub kernel : Kernel
kernel = record {
  counter = 1;
  shell_entry_addr = 0x08048094;
  arg_size = 0;
  page_dir_addr = 0x412000;
  esp0 = 0x7FFFFC;
  pcbs = λ a. record {
    pid = 1;
    parent_pid = 0;
    parent_kernel_sp = 0;
    parent_kernel_bp = 0;
    file_array = files;
    arg = bytes_of [];
  };
  images = λ i. [];
  paging = empty_paging;
  terminal = terminal;
  rtc = record { rtc_interrupt_occurred = 0 };
}

pub frame_found :
    (d : Dentry) × (read_dentry_by_name frame_image (bytes_of (codes "frame")) blank_dentry
      ≡ some (success, d))
    × (d.inode ≡ 1)
unfolding slice_of dentry_name dentry_inode read32 read8
frame_found =
    let (d, e, entry) =
      read_dentry_by_name_found frame_image (lengths 5) (bytes_of (codes "frame")) 5
        frame_image-NamesEnd frame-bytes frame-name (omega arith) blank_dentry 0 (omega arith)
        (omega arith) refl (λ j l. absurd (omega arith)) in
    (d, e, entry.inode)

pub frame-IsFile : IsFile frame_image (bytes_of (codes "frame")) 1
frame-IsFile = record {
  entry = frame_found.0;
  found = frame_found.1;
  node = frame_found.2;
  inode_good = omega arith;
  blocks_good = λ k h. frame-blocks k (omega (arith, frame-length));
}
