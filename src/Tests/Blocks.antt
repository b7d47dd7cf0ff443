-- ===== src/Tests/Blocks.antt =====
-- The block memory functions of student-distrib/lib.c on short blocks.
use project_my_os.Base.{◌+◌, ◌%◌, ◌≡◌, true, inr, arith}
use project_my_os.BlockMemory.{Store, memset, memcpy, memmove}
use project_my_os.BlockMemory.Fill.{memset_lem}
use project_my_os.BlockMemory.Copy.{memcpy_lem, memmove_lem}

-- Every byte holds its address, and the direction flag is set.
abbrev store : Store
store = record { bytes = λ a. a % 256; counts_down = true }

memset_lem_example : (memset 4097 300 10 store).bytes 4103 ≡ 44
memset_lem_example = memset_lem 4097 300 10 store 4103 (omega arith)

memcpy_lem_example : (memcpy 4097 80 10 store).bytes 4103 ≡ 86
memcpy_lem_example =
    memcpy_lem 4097 80 10 store 4103 (inr (omega arith)) (omega arith) (omega arith)

memmove_lem_example :
    ((memmove 4100 4097 10 store).bytes 4103 ≡ 4 + 0)
    × ((memmove 4100 4097 10 store).counts_down ≡ true)
memmove_lem_example = memmove_lem 4100 4097 10 store 4103 (omega arith) (omega arith)
