-- ===== src/Extent/File/Within.antt =====
-- Lab4/Lab4_Template_Optimize/file.c: osfs_write stays within the file's extent.
use fall_oslab.Base.{ℕ, ◌+◌, ◌^◌, ◌≤◌, ◌<◌, ◌≡◌, ◌≢◌, ap, sym, ◌∙◌, List, Option, none, some}
use fall_oslab.Kernel.{Kernel, Errno, Inode, IsCopy}
use fall_oslab.Extent.Types.{SbInfo}
use fall_oslab.Extent.File.{ensure_extent, write_extent, finish_write, osfs_write}
use fall_oslab.Extent.File.Changes.{
  IsExtent, IsOutside, Prepares, TakesExtent, TakesExtent-Keeps, ensure_extent-Prepares,
  write_extent-Keeps,
}

-- What a write may change: the file's own entry, the bytes of its extent, and the bookkeeping of a
-- new extent.
pub record WritesWithin (k : Kernel) (p : ℕ) (sb sb' : SbInfo) : Type 0 where
  pub others : (q : ℕ) → q ≢ p → sb'.inode_table q ≡ sb.inode_table q
  pub extent : TakesExtent p sb sb'
  pub bytes :
      (r : ℕ) → IsOutside k (sb'.inode_table p).i_extent r → sb'.data_blocks r ≡ sb.data_blocks r

finish_write-Within :
    {k : Kernel} {copy : List ℕ → ℕ → List ℕ × ℕ} (sb : SbInfo) (inode : Inode) (bytes : List ℕ)
    (len pos : ℕ) (r : SbInfo × Option Errno)
    → IsCopy copy
    → k.block_size ≤ 65536
    → pos + len < 2 ^ 63
    → Prepares inode.i_private sb r
    → WritesWithin k inode.i_private sb (finish_write k copy inode bytes len pos r).sb
unfolding finish_write
finish_write-Within sb inode bytes len pos (sb', some e) c small h s = record {
  others = s.others;
  extent = s.extent;
  bytes = λ r o. ap (λ m. m r) s.bytes;
}
finish_write-Within {k} {copy} sb inode bytes len pos (sb', none) c small h s =
    let w = write_extent-Keeps sb' inode bytes len pos c small s.fits h in
    record {
      others = λ q ne. w.others q ne ∙ s.others q ne;
      extent =
          TakesExtent-Keeps sb sb' (write_extent k copy sb' inode bytes len pos).sb inode.i_private
            w s.extent;
      bytes = λ r o. w.bytes r (rw (sym w.extent) o) ∙ ap (λ m. m r) s.bytes;
    }

-- osfs_write at a position with pos + len below 2^63, on a region of 20 blocks of at most 65536
-- bytes, for a file whose extent is inside of it and a copy_from_user as documented. On every branch,
-- errors included, no other entry of the table changes, and no byte outside of the extent that the
-- file then has. The bitmaps, the counters and the other fields of the superblock stay as they are
-- and the file keeps its extent; or the file had none, it gets the lowest five free blocks in a row,
-- their bits alone are set, and nr_free_blocks falls by five, in 32 bits.
pub osfs_write_within_extent :
    {k : Kernel} {copy : List ℕ → ℕ → List ℕ × ℕ} (sb : SbInfo) (inode : Inode) (bytes : List ℕ)
    (len pos : ℕ)
    → IsCopy copy
    → k.block_size ≤ 65536
    → sb.block_count ≡ 20
    → IsExtent (sb.inode_table inode.i_private).i_extent
    → pos + len < 2 ^ 63
    → WritesWithin k inode.i_private sb (osfs_write k copy sb inode bytes len pos).sb
unfolding osfs_write
osfs_write_within_extent sb inode bytes len pos c small count fits h =
    finish_write-Within sb inode bytes len pos (ensure_extent sb inode.i_private) c small h
      (ensure_extent-Prepares sb inode.i_private count fits)
