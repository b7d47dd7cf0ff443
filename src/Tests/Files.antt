-- ===== src/Tests/Files.antt =====
-- The file system of student-distrib/files.c on the small image.
use project_my_os.Base.{
  ℕ, ◌/◌, ◌≤◌, ◌<◌, ◌≡◌, ◌≢◌, refl, ap, some, [], ltb, if◌then◌else◌, Bytes, read8, read32, codes,
  length, length-slice_of, slice_of, pos, arith,
}
use project_my_os.Str.{IsString, bytes_of}
use project_my_os.Str.Laws.{bytes_of-IsString, nonzero}
use project_my_os.FileSystem.{
  Dentry, blank_dentry, dentry_name, inode_length, data_block, block_addr, read_data,
  read_dentry_by_name, directory_read, success, fail,
}
use project_my_os.FileSystem.Read.{file_byte, read_data_lem}
use project_my_os.FileSystem.Name.{IsEntry, HasName, read_dentry_by_name_found}
use project_my_os.FileSystem.Directory.{directory_read_lem, listed_name_not_found}
use project_my_os.Tests.Fixture.{
  small, bytes_of-IsBytes, frame_image, long_image, lengths, frame_image-NamesEnd,
  long_image-NamesEnd,
}

pub frame-blocks : (k : ℕ) → k ≤ 4095 → data_block frame_image 1 (k / 4096) < 2
unfolding data_block read32 read8
frame-blocks k h = let e : k / 4096 ≡ 0 = omega arith in rw e (omega arith)

pub frame-length : inode_length frame_image 1 ≡ 5
unfolding inode_length read32 read8
frame-length = refl

pub frame-name : IsString (bytes_of (codes "frame")) 5
unfolding nonzero
frame-name = bytes_of-IsString (codes "frame") refl (omega arith)

pub frame-bytes : (i : ℕ) → bytes_of (codes "frame") i < 256
unfolding small
frame-bytes = bytes_of-IsBytes (codes "frame") refl

other-name : IsString (bytes_of (codes "cat")) 3
unfolding nonzero
other-name = bytes_of-IsString (codes "cat") refl (omega arith)

other-bytes : (i : ℕ) → bytes_of (codes "cat") i < 256
unfolding small
other-bytes = bytes_of-IsBytes (codes "cat") refl

-- No entry of the image has a name of three characters.
no_entry : (j : ℕ) → j < 63 → ¬ HasName frame_image (lengths 5) (bytes_of (codes "cat")) 3 j
no_entry j h has = ground (
  arith,
  ap length has,
  length-slice_of (dentry_name frame_image j) 0 (lengths 5 j),
  length-slice_of (bytes_of (codes "cat")) 0 3,
)

read_data_lem_example :
    ((read_data frame_image 1 1 9).ret ≡ pos 4)
    × ((read_data frame_image 1 1 9).written ≡ codes "ello")
    × ((read_data frame_image 1 1 9).length_of_file ≡ pos 4)
unfolding inode_length data_block block_addr file_byte slice_of read32 read8
read_data_lem_example =
    read_data_lem frame_image 1 1 9 (omega arith) (omega arith) (omega arith) (omega arith)
      (λ k a b c. frame-blocks k (omega (arith, frame-length)))

read_dentry_by_name_found_example :
    (d : Dentry) × (read_dentry_by_name frame_image (bytes_of (codes "frame")) blank_dentry
      ≡ some (success, d))
    × IsEntry frame_image 0 5 d
unfolding slice_of dentry_name read8
read_dentry_by_name_found_example =
    read_dentry_by_name_found frame_image (lengths 5) (bytes_of (codes "frame")) 5
      frame_image-NamesEnd frame-bytes frame-name (omega arith) blank_dentry 0 (omega arith)
      (omega arith) refl (λ j l. absurd (omega arith))

directory_read_lem_example :
    (out : Bytes) × (directory_read frame_image (bytes_of [])
      ≡ some (record frame_image { entry_counter = 1 }, pos 5, out))
    × ((k : ℕ) → k < 33 → out k ≡ (if ltb k 5 then dentry_name frame_image 0 k else 0))
directory_read_lem_example =
    directory_read_lem frame_image (bytes_of []) 5 (omega arith) (omega arith)
      (frame_image-NamesEnd.ends 0 (omega arith))

long-others : (j : ℕ) → j < 63 → lengths 33 j ≢ 32
long-others j h = ground arith

listed_name_not_found_example :
    (out : Bytes) × (directory_read long_image (bytes_of [])
      ≡ some (record long_image { entry_counter = 1 }, pos 32, out))
    × IsString out 32
    × (read_dentry_by_name long_image out blank_dentry ≡ some (fail, blank_dentry))
listed_name_not_found_example =
    listed_name_not_found long_image (lengths 33) (bytes_of []) blank_dentry long_image-NamesEnd
      (λ a. omega arith) (omega arith) (omega arith) (omega arith) long-others
