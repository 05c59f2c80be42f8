-- ===== src/Osfs/File/Errors.antt =====
-- The failing branches of osfs_write.
use fall_oslab.Base.{
  ℕ, ◌+◌, ◌^◌, ◌≤◌, ◌<◌, ◌≡◌, ◌≢◌, ap, sym, ◌∙◌, List, some, true, false, ◌==◌, arith, ne→==, eq→==,
  store_bytes_nil,
}
use fall_oslab.Kernel.{Kernel, Result, ok, err, efault, enospc, Inode, Timespec, IsCopy}
use fall_oslab.Osfs.Types.{SbInfo}
use fall_oslab.Osfs.Inode.{osfs_alloc_data_block}
use fall_oslab.Osfs.Inode.Alloc.{Allocates, take_block}
use fall_oslab.Osfs.Inv.{IsValid, alloc_in_valid}
use fall_oslab.Osfs.File.{give_block, ensure_block, write_block, finish_write, osfs_write}
use fall_oslab.Osfs.File.Valid.{write_len}

true-ne-false : true ≢ false
true-ne-false h = cc

-- A write behind the end of the block asks copy_from_user for a size that wrapped below zero, which
-- it refuses: osfs_write returns -EFAULT and changes nothing, neither memory nor the inode nor the
-- position. This is for a file that has a block, and a position and a length that fit a loff_t.
pub osfs_write_past :
    {k : Kernel} {sb : SbInfo} {copy : List ℕ → ℕ → List ℕ × ℕ} (now now' : Timespec)
    (inode : Inode) (bytes : List ℕ) (len pos : ℕ)
    → IsValid k sb
    → IsCopy copy
    → (sb.inode_table inode.i_private).i_blocks ≢ 0
    → k.block_size < pos
    → pos + len < 2 ^ 63
    → osfs_write k copy now now' sb inode bytes len pos
      ≡ record { result = err efault; sb = sb; inode = inode; pos = pos }
unfolding osfs_write ensure_block finish_write write_block
osfs_write_past {k} {sb} {copy} now now' inode bytes len pos v c has_block past h =
    let p = inode.i_private in
    let n = write_len sb.block_size pos len in
    let big : 2 ^ 31 ≤ n = ground (arith, v.block_size_eq, v.block_size_le) in
    let stays : (n == 0) ≡ false = ne→== n 0 (omega arith) in
    rw (ne→== (sb.inode_table p).i_blocks 0 has_block, c.refused bytes n big, stays)
      (ap
        (λ m. record {
          result = err efault;
          sb = record sb { data_blocks = m };
          inode = inode;
          pos = pos;
        })
        (store_bytes_nil sb.data_blocks _))

give_block_full :
    {sb : SbInfo} (p : ℕ) (r : SbInfo × Result ℕ)
    → Allocates take_block sb.block_bitmap 0 20 sb r
    → ((b : ℕ) → b < 20 → sb.block_bitmap b ≡ true)
    → give_block (sb.inode_table p) p r ≡ (sb, some enospc)
unfolding give_block
give_block_full p (s, err e) a full = ground (arith, a.0, a.1)
give_block_full p (s, ok i) a full = absurd (true-ne-false (sym (full i (omega arith)) ∙ a.1.2))

-- The first write to a file with no block, when every block is in use: -ENOSPC, and nothing changes.
pub osfs_write_enospc :
    {k : Kernel} {sb : SbInfo} (copy : List ℕ → ℕ → List ℕ × ℕ) (now now' : Timespec)
    (inode : Inode) (bytes : List ℕ) (len pos : ℕ)
    → IsValid k sb
    → (sb.inode_table inode.i_private).i_blocks ≡ 0
    → ((b : ℕ) → b < 20 → sb.block_bitmap b ≡ true)
    → osfs_write k copy now now' sb inode bytes len pos
      ≡ record { result = err enospc; sb = sb; inode = inode; pos = pos }
unfolding osfs_write ensure_block finish_write
osfs_write_enospc {k} {sb} copy now now' inode bytes len pos v no_block full =
    let p = inode.i_private in
    rw (
      eq→== (sb.inode_table p).i_blocks 0 no_block,
      give_block_full p (osfs_alloc_data_block sb) (alloc_in_valid v) full,
    )
