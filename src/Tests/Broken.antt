-- ===== src/Tests/Broken.antt =====
-- A read of student-distrib/systemcall.c from a damaged image.
use project_my_os.Base.{
  ◌≡◌, inr, refl, some, [], pos, minus_one, arith, codes, read8, read32, slice_of,
}
use project_my_os.Str.{bytes_of}
use project_my_os.FileSystem.{
  Dentry, blank_dentry, read_dentry_by_name, success, inode_length, data_block, dentry_name,
  dentry_inode, FileSystem,
}
use project_my_os.SystemCall.{Kernel, returns}
use project_my_os.SystemCall.Files.{read}
use project_my_os.SystemCall.Descriptors.{fd_of}
use project_my_os.SystemCall.Failure.{IsBroken, read_fails}
use project_my_os.FileSystem.Name.{NamesEnd, read_dentry_by_name_found}
use project_my_os.Tests.Fixture.{frame_image, lengths, frame_image-NamesEnd}
use project_my_os.Tests.Files.{frame-name, frame-bytes}
use project_my_os.Tests.Display.{terminal}
use project_my_os.Tests.Machine.{kernel}

-- An image with fewer data blocks than the file's block number needs.
abbrev broken_image : FileSystem
broken_image = record frame_image {
  my_boot_block = record { dentries_num = 1; inodes_num = 2; datablocks_num = 1 };
}

abbrev broken : Kernel
broken = record kernel { terminal = record terminal { fs = broken_image } }

broken_found :
    (d : Dentry) × (read_dentry_by_name broken_image (bytes_of (codes "frame")) blank_dentry
      ≡ some (success, d))
    × (d.inode ≡ 1)
unfolding slice_of dentry_name dentry_inode read32 read8
broken_found =
    let names : NamesEnd broken_image (lengths 5) = record {
      bytes = frame_image-NamesEnd.bytes;
      ends = frame_image-NamesEnd.ends;
      short = frame_image-NamesEnd.short;
    } in
    let (d, e, entry) =
      read_dentry_by_name_found broken_image (lengths 5) (bytes_of (codes "frame")) 5 names
        frame-bytes frame-name (omega arith) blank_dentry 0 (omega arith) (omega arith) refl
        (λ j l. absurd (omega arith)) in
    (d, e, entry.inode)

broken-IsBroken : IsBroken broken 2 1
unfolding inode_length data_block read32 read8
broken-IsBroken = record {
  in_range = omega arith;
  in_use = omega arith;
  operations = refl;
  entry = broken_found.0;
  found = broken_found.1;
  node = broken_found.2;
  inside = omega arith;
  bad = inr (omega arith);
}

read_fails_example :
    (k' : Kernel) × (read broken (pos 2) (some (bytes_of [])) (pos 3) []
      ≡ returns (k', minus_one, []))
    × ((fd_of k' 2).fileposition ≡ 0)
read_fails_example =
    read_fails broken 2 1 3 (bytes_of []) [] broken-IsBroken (omega arith) (omega arith)
