-- ===== src/Extent/Tests.antt =====
-- Witnesses for the theorems on Lab4/Lab4_Template_Optimize, and runs of its functions.
use fall_oslab.Base.{◌≡◌, refl, [], ◌∷◌, none, some, true, arith}
use fall_oslab.Kernel.{Inode}
use fall_oslab.Fixture.{kernel, blank, copy_all, copy_all-IsCopy}
use fall_oslab.Extent.Types.{SbInfo}
use fall_oslab.Extent.Inode.{osfs_alloc_extent, find_extent, count_clear_from, set_bits}
use fall_oslab.Extent.Inode.Alloc.{AllocatesExtent, osfs_alloc_extent_lem}
use fall_oslab.Extent.File.{osfs_write}
use fall_oslab.Extent.File.Within.{WritesWithin, osfs_write_within_extent}
use fall_oslab.Extent.Dir.{osfs_create}
use fall_oslab.Extent.Dir.Create.{Creates, osfs_create-Creates_extent}
use fall_oslab.Extent.Super.{
  SuperBlock, osfs_fill_super, osfs_kill_superblock, fresh_sb_info, init_root_entry, root_extent,
}
use fall_oslab.Extent.Super.Mount.{Mounts, frees, osfs_fill_super_extent_lem}

abbrev unmounted : SuperBlock
unmounted = record { s_magic = 0; s_fs_info = none; s_root = none; vfree_calls = 0 }

abbrev root_dir : Inode
root_dir = record blank { i_ino = 1; i_mode = 16877; i_private = 1 }

abbrev empty_fs : SbInfo
empty_fs = init_root_entry (fresh_sb_info kernel) 1 root_dir

osfs_fill_super_extent_lem_example :
    let (s', r) = osfs_fill_super kernel true (some blank) true unmounted in
    Mounts s' r × ((osfs_kill_superblock s').vfree_calls ≡ frees true r)
osfs_fill_super_extent_lem_example =
    osfs_fill_super_extent_lem kernel true (some blank) true unmounted refl refl refl

osfs_alloc_extent_lem_example :
    AllocatesExtent (fresh_sb_info kernel) 5 (osfs_alloc_extent (fresh_sb_info kernel) 5)
unfolding fresh_sb_info
osfs_alloc_extent_lem_example =
    osfs_alloc_extent_lem (fresh_sb_info kernel) 5 (omega arith) (omega arith)

osfs_write_within_extent_example :
    WritesWithin kernel 2 empty_fs
      (osfs_write kernel copy_all empty_fs (record blank { i_private = 2 }) (7 ∷ 8 ∷ []) 2 100).sb
unfolding init_root_entry fresh_sb_info osfs_alloc_extent find_extent count_clear_from root_extent
    set_bits
osfs_write_within_extent_example =
    osfs_write_within_extent empty_fs (record blank { i_private = 2 }) (7 ∷ 8 ∷ []) 2 100
      copy_all-IsCopy (omega arith) refl (omega arith) (omega arith)

osfs_create-Creates_extent_example :
    Creates kernel
      (some blank)
      empty_fs
      root_dir
      (97 ∷ [])
      (osfs_create kernel (some blank) 3 empty_fs root_dir (97 ∷ []) 33188)
unfolding init_root_entry fresh_sb_info osfs_alloc_extent find_extent count_clear_from root_extent
    set_bits
osfs_create-Creates_extent_example =
    osfs_create-Creates_extent kernel (some blank) 3 empty_fs root_dir (97 ∷ []) 33188 (omega arith)
      refl refl refl
