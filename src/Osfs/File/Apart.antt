-- ===== src/Osfs/File/Apart.antt =====
-- osfs_write stays within the file's own block, so files do not disturb one another.
use mathlib.Core.Path.{subst}
use fall_oslab.Base.{
  ℕ, ◌+◌, ◌^◌, ◌≤◌, ◌<◌, ◌≡◌, ◌≢◌, refl, ap, sym, ◌∙◌, ◌⊎◌, inl, inr, List, Option, none, some,
  true, ◌==◌, mul32, arith, Bool-cases, load_bytes_agree,
}
use fall_oslab.Kernel.{Kernel, Result, ok, err, Errno, Inode, Timespec, IsCopy}
use fall_oslab.Osfs.Types.{SbInfo, OsfsInode}
use fall_oslab.Osfs.Inode.{osfs_alloc_data_block}
use fall_oslab.Osfs.Inv.{IsValid, owns_block, mul32_lem, blocks_apart}
use fall_oslab.Osfs.File.{give_block, ensure_block, write_block, finish_write, osfs_write}
use fall_oslab.Osfs.File.Valid.{ensure_block-IsValid}
use fall_oslab.Osfs.File.Refine.{contents}
use fall_oslab.Osfs.File.Changes.{
  IsOutside, Keeps, Prepares, TakesBlock, TakesBlock-Keeps, ensure_block-Prepares,
  write_block-Keeps,
}

finish_write-within :
    {k : Kernel} {sb : SbInfo} {copy : List ℕ → ℕ → List ℕ × ℕ} (now now' : Timespec)
    (inode : Inode) (bytes : List ℕ) (len pos : ℕ) (r : SbInfo × Option Errno)
    → Prepares inode.i_private sb r.0
    → IsValid k r.0
    → IsCopy copy
    → pos + len < 2 ^ 63
    → let sb' = (finish_write k copy now now' inode bytes len pos r).sb in
      let p = inode.i_private in
      ((q : ℕ) → q ≢ p → sb'.inode_table q ≡ sb.inode_table q)
      × ((a : ℕ) → IsOutside k sb' p a → sb'.data_blocks a ≡ sb.data_blocks a)
      × TakesBlock p sb sb'
unfolding finish_write
finish_write-within now now' inode bytes len pos (sb', some e) w v c h =
    (w.others, λ a o. ap (λ (m : ℕ → ℕ). m a) w.bytes, w.books)
finish_write-within {k} {sb} {copy} now now' inode bytes len pos (sb', none) w v c h =
    let s = write_block-Keeps now now' inode bytes len pos v c h in
    (
      λ q ne. s.others q ne ∙ w.others q ne,
      λ a o.
          s.bytes a (
            subst (λ i. let at = mul32 i k.block_size in (a < at) ⊎ (at + k.block_size ≤ a)) s.block
              o)
          ∙ ap (λ (m : ℕ → ℕ). m a) w.bytes,
      TakesBlock-Keeps sb sb' (write_block k copy now now' sb' inode bytes len pos).sb
          inode.i_private s w.books,
    )

-- Whatever osfs_write returns, it changes no entry of the inode table but the file's own, and no
-- data byte outside of the one block that the file has afterwards. The bitmaps, the counters and the
-- other fields of the superblock stay as they are and the file keeps its block; or the file had no
-- block, it gets the lowest free one, that block's bit alone is set, and nr_free_blocks falls by one,
-- in 32 bits.
-- This is in a valid region, for a copy_from_user as documented and a position and a length whose
-- sum fits a loff_t; the position may lie behind the block.
pub osfs_write_within :
    {k : Kernel} {sb : SbInfo} {copy : List ℕ → ℕ → List ℕ × ℕ} (now now' : Timespec)
    (inode : Inode) (bytes : List ℕ) (len pos : ℕ)
    → IsValid k sb
    → IsCopy copy
    → pos + len < 2 ^ 63
    → let sb' = (osfs_write k copy now now' sb inode bytes len pos).sb in
      let p = inode.i_private in
      ((q : ℕ) → q ≢ p → sb'.inode_table q ≡ sb.inode_table q)
      × ((a : ℕ) → IsOutside k sb' p a → sb'.data_blocks a ≡ sb.data_blocks a)
      × TakesBlock p sb sb'
unfolding osfs_write
osfs_write_within {k} {sb} now now' inode bytes len pos v c h =
    finish_write-within now now' inode bytes len pos (ensure_block sb inode.i_private)
      (ensure_block-Prepares inode.i_private v) (ensure_block-IsValid inode.i_private v) c h

-- A byte of another file's block is outside of this one.
outside_of_apart :
    (i j b a : ℕ)
    → i < 20
    → j < 20
    → b ≤ 65536
    → i ≢ j
    → mul32 j b ≤ a
    → a < mul32 j b + b
    → let at = mul32 i b in (a < at) ⊎ (at + b ≤ a)
outside_of_apart i j b a hi hj hb ne lo up =
    let ei = mul32_lem i b hi hb in
    let ej = mul32_lem j b hj hb in
    elim (blocks_apart i j b ne) [ inl h ↦ inr (omega arith) | inr h ↦ inl (omega arith) ]

contents_kept :
    {k : Kernel} {sb sb' : SbInfo} (p q : ℕ)
    → IsValid k sb
    → owns_block sb p ≡ true
    → owns_block sb q ≡ true
    → q ≢ p
    → Keeps k p sb sb'
    → contents k sb' q ≡ contents k sb q
contents_kept {k} {sb} {sb'} p q v op oq ne s =
    let at = mul32 (sb.inode_table q).i_block k.block_size in
    rw (s.others q ne) (
      load_bytes_agree sb'.data_blocks sb.data_blocks at (sb.inode_table q).i_size (λ a lo up.
        s.bytes a (
          outside_of_apart (sb.inode_table p).i_block (sb.inode_table q).i_block k.block_size a
            (v.owned p op).0 (v.owned q oq).0 v.block_size_le (v.apart p q op oq (λ e. ne (sym e)))
            lo (omega (arith, v.sized q)))))

give_block-owns :
    (oi : OsfsInode) (p : ℕ) (r : SbInfo × Result ℕ)
    → (give_block oi p r).1 ≡ none
    → owns_block (give_block oi p r).0 p ≡ true
unfolding give_block
give_block-owns oi p (sb', err e) h = cc
give_block-owns oi p (sb', ok i) h = ground arith

ensure_block-owns :
    (sb : SbInfo) (p : ℕ) → (ensure_block sb p).1 ≡ none → owns_block (ensure_block sb p).0 p ≡ true
unfolding ensure_block
ensure_block-owns sb p = elim (Bool-cases ((sb.inode_table p).i_blocks == 0)) [
  | inl e ↦ rw e (give_block-owns (sb.inode_table p) p (osfs_alloc_data_block sb))
  | inr e ↦ rw e (λ h. ground arith)
]

finish_write-apart :
    {k : Kernel} {sb : SbInfo} {copy : List ℕ → ℕ → List ℕ × ℕ} (now now' : Timespec)
    (inode : Inode) (bytes : List ℕ) (len pos q : ℕ) (r : SbInfo × Option Errno)
    → Prepares inode.i_private sb r.0
    → IsValid k r.0
    → (r.1 ≡ none → owns_block r.0 inode.i_private ≡ true)
    → IsCopy copy
    → pos + len < 2 ^ 63
    → owns_block sb q ≡ true
    → q ≢ inode.i_private
    → contents k (finish_write k copy now now' inode bytes len pos r).sb q ≡ contents k sb q
unfolding finish_write
finish_write-apart now now' inode bytes len pos q (sb', some e) w v own c h oq ne =
    rw (w.others q ne, w.bytes)
finish_write-apart {k} {sb} now now' inode bytes len pos q (sb', none) w v own c h oq ne =
    contents_kept inode.i_private q v (own refl) (ground (arith, w.others q ne)) ne
      (write_block-Keeps now now' inode bytes len pos v c h)
    ∙ rw (w.others q ne, w.bytes)

-- Whatever osfs_write returns, the bytes of every other file and of the directory stay as they
-- were: in a valid region, for a copy_from_user as documented, and a position and a length whose
-- sum fits a loff_t.
pub osfs_write_apart :
    {k : Kernel} {sb : SbInfo} {copy : List ℕ → ℕ → List ℕ × ℕ} (now now' : Timespec)
    (inode : Inode) (bytes : List ℕ) (len pos q : ℕ)
    → IsValid k sb
    → IsCopy copy
    → pos + len < 2 ^ 63
    → owns_block sb q ≡ true
    → q ≢ inode.i_private
    → contents k (osfs_write k copy now now' sb inode bytes len pos).sb q ≡ contents k sb q
unfolding osfs_write
osfs_write_apart {k} {sb} now now' inode bytes len pos q v c h oq ne =
    finish_write-apart now now' inode bytes len pos q (ensure_block sb inode.i_private)
      (ensure_block-Prepares inode.i_private v) (ensure_block-IsValid inode.i_private v)
      (ensure_block-owns sb inode.i_private) c h oq ne
