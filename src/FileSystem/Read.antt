-- ===== src/FileSystem/Read.antt =====
-- read_data of student-distrib/files.c against the bytes of a file laid out in its data blocks.
use project_my_os.Base.{
  ℕ, zero, suc, ◌+◌, ◌-◌, ◌*◌, ◌/◌, ◌%◌, ◌^◌, ◌≤◌, ◌<◌, ◌≡◌, refl, ap, some, [], ◌∷◌, leb,
  leb_of_lt, le→leb, ◌⊎◌, inl, inr, Bool-cases, if◌then◌else◌, min, slice_of, read8, pos, arith,
  ◌∙◌, ap₂,
}
use project_my_os.FileSystem.{
  FileSystem, inode_length, data_block, block_addr, ReadPos, ReadResult, next_block, read_loop,
  read_data, fail,
}

-- Byte `p` of the file: the block of its number `p / 4096`, at offset `p % 4096`.
unfoldable pub file_byte : FileSystem → ℕ → ℕ → ℕ
file_byte fs inode p = read8 fs.ram (block_addr fs inode (p / 4096) + p % 4096)

module _ (fs : FileSystem) (inode offset : ℕ) where
  -- The cursor stands at file position `p`, or one past the block that holds `p - 1`.
  record At (p : ℕ) (q : ReadPos) : Type 0 where
    place : q.read_data_block * 4096 + q.read_data ≡ p
    within : q.read_data ≤ 4096
    addr : q.read_addr ≡ block_addr fs inode q.read_data_block + q.read_data

  next_block_lem :
      (p : ℕ) (q : ReadPos)
      → At p q
      → data_block fs inode (p / 4096) < fs.my_boot_block.datablocks_num
      → (q' : ReadPos) × (next_block fs inode q ≡ some q') × At p q' × (q'.read_data < 4096)
  unfolding next_block
  next_block_lem p q a h = elim (Bool-cases (leb 4096 q.read_data)) [
    | inl over ↦
        let e : p / 4096 ≡ q.read_data_block + 1 = ground (arith, a.place, a.within) in
        let good : data_block fs inode (q.read_data_block + 1) < fs.my_boot_block.datablocks_num =
          rw e at h in
        (
          record {
            read_data = 0;
            read_data_block = q.read_data_block + 1;
            read_addr = block_addr fs inode (q.read_data_block + 1);
          },
          rw (over, leb_of_lt _ _ good, next_block),
          record {
            place = ground (arith, a.place, a.within);
            within = omega arith;
            addr = omega arith;
          },
          omega arith,
        )
    | inr inside ↦ (q, rw (inside, next_block), a, ground arith)
  ]

  -- Every block that the read looks at has a good number; so has the one just past the end of the
  -- file, where the read goes on to a file end that is also a block end.
  abbrev pub BlocksGood : ℕ → ℕ → Type 0
  BlocksGood p n =
      (k : ℕ)
      → p ≤ k
      → k < p + n
      → k ≤ inode_length fs inode
      → data_block fs inode (k / 4096) < fs.my_boot_block.datablocks_num

  -- The result of a read of `m` bytes from file position `p` after `i` bytes.
  record Gives (p i m : ℕ) (r : ReadResult) : Type 0 where
    ret : r.ret ≡ pos (i + m)
    written : r.written ≡ slice_of (file_byte fs inode) p m
    length_of_file : r.length_of_file ≡ pos (i + m)

  Gives-stop :
      (p i m : ℕ)
      → m ≡ 0
      → Gives p i m (record { ret = pos i; written = []; length_of_file = pos i })
  unfolding slice_of
  Gives-stop p i zero e = record {
    ret = ap pos (omega arith);
    written = refl;
    length_of_file = ap pos (omega arith);
  }
  Gives-stop p i (suc m) e = absurd (omega arith)

  Gives-next :
      (p i m : ℕ) (r : ReadResult) (c : ℕ)
      → c ≡ file_byte fs inode p
      → Gives (p + 1) (i + 1) m r
      → Gives p i (suc m) (record r { written = c ∷ r.written })
  unfolding slice_of
  Gives-next p i m r c e g = record {
    ret = g.ret ∙ ap pos (omega arith);
    written = ap₂ ◌∷◌ e g.written;
    length_of_file = g.length_of_file ∙ ap pos (omega arith);
  }

  At-byte :
      (p : ℕ) (q : ReadPos)
      → At p q
      → q.read_data < 4096
      → read8 fs.ram q.read_addr ≡ file_byte fs inode p
  unfolding file_byte
  At-byte p q a h =
      let e : p / 4096 ≡ q.read_data_block = omega (arith, a.place) in
      let e' : p % 4096 ≡ q.read_data = omega (arith, a.place) in rw (e, e', a.addr)

  At-step :
      (p : ℕ) (q : ReadPos)
      → At p q
      → q.read_data < 4096
      → At (p + 1) (record q { read_data = q.read_data + 1; read_addr = q.read_addr + 1 })
  At-step p q a h = record {
    place = omega (arith, a.place);
    within = omega arith;
    addr = omega (arith, a.addr);
  }

  read_loop-end :
      (r i : ℕ) (q q' : ReadPos)
      → next_block fs inode q ≡ some q'
      → offset + i < 2 ^ 32
      → inode_length fs inode ≤ offset + i
      → read_loop fs inode offset (suc r) i q
        ≡ record { ret = pos i; written = []; length_of_file = pos i }
  unfolding read_loop
  read_loop-end r i q q' e w h =
      let sum : (i + offset) % 2 ^ 32 ≡ offset + i = omega arith in
      rw (e, sum, le→leb _ _ h, read_loop)

  read_loop-byte :
      (r i : ℕ) (q q' : ReadPos)
      → next_block fs inode q ≡ some q'
      → offset + i < 2 ^ 32
      → offset + i < inode_length fs inode
      → read_loop fs inode offset (suc r) i q ≡ (
          let rest =
            read_loop fs inode offset r
              (i + 1)
              (record q' { read_data = q'.read_data + 1; read_addr = q'.read_addr + 1 }) in
          record rest { written = read8 fs.ram q'.read_addr ∷ rest.written })
  unfolding read_loop
  read_loop-byte r i q q' e w h =
      let sum : (i + offset) % 2 ^ 32 ≡ offset + i = omega arith in
      rw (e, sum, leb_of_lt _ _ h, read_loop)

  read_loop_lem :
      (r i p : ℕ) (q : ReadPos)
      → p ≡ offset + i
      → At p q
      → p ≤ inode_length fs inode
      → p + r < 2 ^ 32
      → BlocksGood p r
      → Gives p i (min r (inode_length fs inode - p)) (read_loop fs inode offset r i q)
  unfolding read_loop
  read_loop_lem zero i p q ep a l w b = Gives-stop p i _ (omega arith)
  read_loop_lem (suc r) i p q ep a l w b =
      let (q', e, a', inside) = next_block_lem p q a (b p (omega arith) (omega arith) l) in
      elim (Bool-cases (leb (inode_length fs inode) p)) [
        | inl end ↦
            rw (read_loop-end r i q q' e (omega arith) (ground arith))
              (Gives-stop p i _ (ground arith))
        | inr more ↦
            let m : min (suc r) (inode_length fs inode - p)
                ≡ suc (min r (inode_length fs inode - (p + 1))) =
              ground arith in
            rw (read_loop-byte r i q q' e (omega arith) (ground arith), m)
              (Gives-next p i _ _ _ (At-byte p q' a' inside) (
                read_loop_lem r (i + 1) (p + 1) _ (omega arith) (At-step p q' a' inside)
                  (ground arith) (omega arith) (λ k x y z. b k (omega arith) (omega arith) z)))
      ]

-- For a good inode, an offset inside the file, good blocks and no wrap of the position,
-- `read_data` returns the number of bytes from the offset to the file's end or to the requested
-- length, whichever is less, stores exactly those bytes of the file in order, and leaves that
-- number in `length_of_file`.
pub read_data_lem :
    (fs : FileSystem) (inode offset n : ℕ)
    → inode < fs.my_boot_block.inodes_num
    → offset < inode_length fs inode
    → offset + n < 2 ^ 32
    → data_block fs inode (offset / 4096) < fs.my_boot_block.datablocks_num
    → BlocksGood fs inode offset offset n
    → let m = min n (inode_length fs inode - offset) in
      let r = read_data fs inode offset n in
      (r.ret ≡ pos m)
      × (r.written ≡ slice_of (file_byte fs inode) offset m)
      × (r.length_of_file ≡ pos m)
unfolding read_data
read_data_lem fs inode offset n hi ho hw hb good =
    let start : ReadPos = record {
      read_data = offset % 4096;
      read_data_block = offset / 4096;
      read_addr = block_addr fs inode (offset / 4096) + offset % 4096;
    } in
    let a : At fs inode offset offset start = record {
      place = omega arith;
      within = omega arith;
      addr = refl;
    } in
    let g = read_loop_lem fs inode offset n 0 offset start (omega arith) a (omega arith) hw good in
    ground (arith, g.ret, g.written, g.length_of_file)

-- A read at or past the end of the file returns 0; before it, a read of an inode number out of
-- range or with a bad number of the first block fails. Nothing is stored either way.
pub read_data_refuses :
    (fs : FileSystem) (inode offset n : ℕ)
    → (inode_length fs inode ≤ offset)
      ⊎ (fs.my_boot_block.inodes_num ≤ inode)
      ⊎ (fs.my_boot_block.datablocks_num ≤ data_block fs inode (offset / 4096))
    → let r = read_data fs inode offset n in
      (r.ret ≡ (if leb (inode_length fs inode) offset then pos 0 else fail)) × (r.written ≡ [])
unfolding read_data
read_data_refuses fs inode offset n bad = (ground arith, ground arith)
