-- ===== src/Extent/Super/Mount.antt =====
-- Lab4/Lab4_Template_Optimize/super.c: what a mount sets up, and how often the region is freed.
use fall_oslab.Base.{ℕ, ◌≡◌, refl, Option, none, some, Bool, true, false, arith}
use fall_oslab.Kernel.{Kernel, Result, ok, err, Inode}
use fall_oslab.Extent.Types.{SbInfo, root_inode}
use fall_oslab.Extent.Inode.{
  osfs_get_osfs_inode, count_clear_from, set_bits, find_extent, osfs_alloc_extent,
}
use fall_oslab.Extent.Inode.Numbers.{osfs_get_osfs_inode_lem}
use fall_oslab.Extent.Super.{
  SuperBlock, fresh_sb_info, init_root_inode, root_extent, init_root_entry, osfs_fill_super,
  osfs_kill_superblock,
}

root_found : (k : Kernel) → osfs_get_osfs_inode (fresh_sb_info k) root_inode ≡ some root_inode
unfolding fresh_sb_info
root_found k = osfs_get_osfs_inode_lem (fresh_sb_info k) root_inode (omega arith) (omega arith)

-- The region of a mounted file system: the root's entry has its number and the first block, and
-- number and block are taken.
pub record IsMounted (sb : SbInfo) : Type 0 where
  pub number : (sb.inode_table root_inode).i_ino ≡ root_inode
  pub start : (sb.inode_table root_inode).i_extent.ee_start ≡ 0
  pub len : (sb.inode_table root_inode).i_extent.ee_len ≡ 1
  pub size : (sb.inode_table root_inode).i_size ≡ 0
  pub number_taken : sb.inode_bitmap root_inode ≡ true
  pub block_taken : sb.block_bitmap 0 ≡ true
  pub inodes : sb.inode_count ≡ 20
  pub blocks : sb.block_count ≡ 20
  pub free_blocks : sb.nr_free_blocks ≡ 19

init_root_entry-IsMounted :
    (k : Kernel) (root : Inode) → IsMounted (init_root_entry (fresh_sb_info k) root_inode root)
unfolding init_root_entry fresh_sb_info osfs_alloc_extent find_extent count_clear_from root_extent
    set_bits
init_root_entry-IsMounted k root = record {
  number = refl;
  start = refl;
  len = refl;
  size = refl;
  number_taken = refl;
  block_taken = refl;
  inodes = refl;
  blocks = refl;
  free_blocks = refl;
}

-- How often the region is freed up to the end of osfs_kill_superblock.
abbrev pub frees : (memory : Bool) → Result (Unit {0}) → ℕ
frees false r = 0
frees true (ok _) = 1
frees true (err e) = 2

-- What a mount leaves: a root directory, unless an error is returned.
abbrev pub Mounts : SuperBlock → Result (Unit {0}) → Type 0
Mounts s (err e) = s.s_root ≡ none
Mounts s (ok _) =
    ((sb : SbInfo) × (s.s_fs_info ≡ some sb) × IsMounted sb)
    × ((root : Inode) × (s.s_root ≡ some root) × (root.i_private ≡ root_inode))

-- Mounting a new superblock, whatever vmalloc, new_inode and d_make_root answer: it ends with a root
-- directory in the first block and nineteen free blocks, or with an error and no root. Unmounting,
-- or giving up the failed mount, then frees the region once after a success, twice after an error
-- behind vmalloc, and not at all if vmalloc failed.
pub osfs_fill_super_extent_lem :
    (k : Kernel) (memory : Bool) (fresh : Option Inode) (rooted : Bool) (s : SuperBlock)
    → s.s_fs_info ≡ none
    → s.s_root ≡ none
    → s.vfree_calls ≡ 0
    → let (s', r) = osfs_fill_super k memory fresh rooted s in
      Mounts s' r × ((osfs_kill_superblock s').vfree_calls ≡ frees memory r)
unfolding osfs_fill_super osfs_kill_superblock
osfs_fill_super_extent_lem k false fresh rooted s e n z = (n, ground arith)
osfs_fill_super_extent_lem k true none rooted s e n z = (n, ground arith)
osfs_fill_super_extent_lem k true (some blank) false s e n z =
    rw (root_found k) (refl, ground arith)
osfs_fill_super_extent_lem k true (some blank) true s e n z = rw (root_found k) (
  (
    (
      init_root_entry (fresh_sb_info k) root_inode (init_root_inode k blank),
      refl,
      init_root_entry-IsMounted k (init_root_inode k blank),
    ),
    (record (init_root_inode k blank) { i_private = root_inode }, refl, refl),
  ),
  ground arith,
)
