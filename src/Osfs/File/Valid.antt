-- ===== src/Osfs/File/Valid.antt =====
-- osfs_write keeps the invariant, on every branch.
use fall_oslab.Base.{
  ℕ, ◌+◌, ◌^◌, ◌≤◌, ◌<◌, refl, inl, inr, List, Option, none, some, ◌==◌, ltb, if◌then◌else◌, add64,
  sub64, arith, Bool-cases,
}
use fall_oslab.Kernel.{Kernel, Result, ok, err, Errno, Inode, Timespec}
use fall_oslab.Osfs.Types.{SbInfo}
use fall_oslab.Osfs.Inode.{osfs_alloc_data_block}
use fall_oslab.Osfs.Inode.Alloc.{take_block, Allocates}
use fall_oslab.Osfs.Inv.{
  IsValid, alloc_in_valid, put_inode-IsValid, take_block-IsValid, data_blocks-IsValid,
}
use fall_oslab.Osfs.File.{give_block, ensure_block, write_block, finish_write, osfs_write}

give_block-IsValid :
    {k : Kernel} {sb : SbInfo} (p : ℕ) (r : SbInfo × Result ℕ)
    → IsValid k sb
    → Allocates take_block sb.block_bitmap 0 20 sb r
    → IsValid k (give_block (sb.inode_table p) p r).0
unfolding give_block
give_block-IsValid p (sb', err e) v a = rw a.1 v
give_block-IsValid {sb} p (sb', ok i) v a = rw a.0 (
    take_block-IsValid v p i (record (sb.inode_table p) { i_block = i; i_blocks = 1 }) (omega arith)
      a.1.2 refl (v.sized p))

pub ensure_block-IsValid :
    {k : Kernel} {sb : SbInfo} (p : ℕ) → IsValid k sb → IsValid k (ensure_block sb p).0
unfolding ensure_block
ensure_block-IsValid {sb} p v = elim (Bool-cases ((sb.inode_table p).i_blocks == 0)) [
  | inl e ↦ rw e (give_block-IsValid p (osfs_alloc_data_block sb) v (alloc_in_valid v))
  | inr e ↦ rw e v
]

-- The number of bytes that osfs_write transfers, for a block of size `b`.
abbrev pub write_len : (b pos len : ℕ) → ℕ
write_len b pos len = if ltb b (add64 pos len) then sub64 b pos else len

write_len_fits :
    (b size pos len : ℕ)
    → b ≤ 65536
    → size ≤ b
    → pos + len < 2 ^ 64
    → (if ltb size (add64 pos (write_len b pos len)) then add64 pos (write_len b pos len) else size)
      ≤ b
write_len_fits b size pos len hb hs h = ground arith

write_block-IsValid :
    {k : Kernel} {sb : SbInfo} (copy : List ℕ → ℕ → List ℕ × ℕ) (now now' : Timespec)
    (inode : Inode) (bytes : List ℕ) (len pos : ℕ)
    → IsValid k sb
    → pos + len < 2 ^ 64
    → IsValid k (write_block k copy now now' sb inode bytes len pos).sb
unfolding write_block
write_block-IsValid {k} {sb} copy now now' inode bytes len pos v h =
    elim (Bool-cases ((copy bytes (write_len sb.block_size pos len)).1 == 0)) [
      | inl e ↦ rw e (
          put_inode-IsValid (data_blocks-IsValid v _ sb.nr_free_inodes) inode.i_private _ refl refl
            (rw v.block_size_eq (
              write_len_fits k.block_size (sb.inode_table inode.i_private).i_size pos len
                v.block_size_le (v.sized inode.i_private) h)))
      | inr e ↦ rw e (data_blocks-IsValid v _ sb.nr_free_inodes)
    ]

finish_write-IsValid :
    {k : Kernel} (copy : List ℕ → ℕ → List ℕ × ℕ) (now now' : Timespec) (inode : Inode)
    (bytes : List ℕ) (len pos : ℕ) (r : SbInfo × Option Errno)
    → IsValid k r.0
    → pos + len < 2 ^ 64
    → IsValid k (finish_write k copy now now' inode bytes len pos r).sb
unfolding finish_write
finish_write-IsValid copy now now' inode bytes len pos (sb, some e) v h = v
finish_write-IsValid copy now now' inode bytes len pos (sb, none) v h =
    write_block-IsValid copy now now' inode bytes len pos v h

-- osfs_write keeps the invariant of the region, whether it succeeds or fails and whatever
-- copy_from_user stores, for a position and a length whose sum does not wrap: the file keeps a block
-- of its own and no more than block_size bytes.
pub osfs_write-IsValid :
    {k : Kernel} {sb : SbInfo} (copy : List ℕ → ℕ → List ℕ × ℕ) (now now' : Timespec)
    (inode : Inode) (bytes : List ℕ) (len pos : ℕ)
    → IsValid k sb
    → pos + len < 2 ^ 64
    → IsValid k (osfs_write k copy now now' sb inode bytes len pos).sb
unfolding osfs_write
osfs_write-IsValid {sb} copy now now' inode bytes len pos v h =
    finish_write-IsValid copy now now' inode bytes len pos (ensure_block sb inode.i_private)
      (ensure_block-IsValid inode.i_private v) h
