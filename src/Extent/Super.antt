-- ===== src/Extent/Super.antt =====
-- Lab4/Lab4_Template_Optimize/super.c and the unmounting in osfs_init.c.
pub mod Mount
use fall_oslab.Base.{ℕ, ◌+◌, ◌-◌, Option, none, some, Bool, false, true, update, if◌then◌else◌}
use fall_oslab.Kernel.{Kernel, Result, ok, err, enomem, eio, Inode, dir_ops}
use fall_oslab.Extent.Types.{
  SbInfo, OsfsInode, put_inode, zero_inode, osfs_magic, inode_count_max, data_block_count,
  root_inode,
}
use fall_oslab.Extent.Inode.{osfs_get_osfs_inode, osfs_alloc_extent}

-- The fields of `struct super_block` that osfs uses; `vfree_calls` counts how often the region was
-- freed.
pub record SuperBlock : Type 0 where
  pub s_magic : ℕ
  pub s_fs_info : Option SbInfo
  pub s_root : Option Inode
  pub vfree_calls : ℕ

unfoldable pub osfs_destroy_inode : Inode → Inode
osfs_destroy_inode inode = inode

unfoldable pub fresh_sb_info : Kernel → SbInfo
fresh_sb_info k = record {
  magic = osfs_magic;
  block_size = k.block_size;
  inode_count = inode_count_max;
  block_count = data_block_count;
  nr_free_inodes = inode_count_max - 1;
  nr_free_blocks = data_block_count;
  inode_bitmap = λ _. false;
  block_bitmap = λ _. false;
  inode_table = λ _. zero_inode;
  data_blocks = λ _. 0;
}

-- The root's VFS inode, up to i_private.
unfoldable pub init_root_inode : Kernel → Inode → Inode
init_root_inode k fresh = record fresh {
  i_ino = root_inode;
  i_mode = k.s_ifdir_0755;
  i_ops = dir_ops;
  i_nlink = 2;
}

-- The extent of one block for the root; a failure is not reported.
unfoldable pub root_extent : OsfsInode → (p : ℕ) → SbInfo × Result ℕ → SbInfo
root_extent oi p (sb, err e) = sb
root_extent oi p (sb, ok i) =
    put_inode sb p (record oi { i_extent = record { ee_start = i; ee_len = 1 }; i_blocks = 1 })

-- The region with the root's entry, extent and inode number.
unfoldable pub init_root_entry : SbInfo → (p : ℕ) → (root : Inode) → SbInfo
init_root_entry sb p root =
    let oi = record zero_inode { i_ino = root_inode; i_mode = root.i_mode } in
    let sb' = root_extent oi p (osfs_alloc_extent (put_inode sb p oi) 1) in
    record sb' { inode_bitmap = update sb'.inode_bitmap root_inode true }

-- `memory` says whether vmalloc succeeds, `fresh` is what new_inode(sb) returns, and `rooted` says
-- whether d_make_root succeeds.
unfoldable pub osfs_fill_super :
    Kernel
    → (memory : Bool) → (fresh : Option Inode) → (rooted : Bool) → SuperBlock
    → SuperBlock × Result (Unit {0})
osfs_fill_super k memory fresh rooted s =
    let sb = fresh_sb_info k in
    let s' = record s { s_magic = osfs_magic; s_fs_info = some sb } in
    let freed = record s' { vfree_calls = s.vfree_calls + 1 } in
    let filled : SuperBlock × Result (Unit {0}) = elim fresh [
      | none ↦ (freed, err enomem)
      | some blank ↦
          let root = init_root_inode k blank in
          elim (osfs_get_osfs_inode sb root_inode) [
            | none ↦ (freed, err eio)
            | some p ↦
                let sb' = init_root_entry sb p root in
                if rooted
                then (
                  record s' { s_fs_info = some sb'; s_root = some (record root { i_private = p }) },
                  ok tt,
                )
                else (record freed { s_fs_info = some sb'; s_root = none }, err enomem)
          ]
    ] in
    if memory then filled else (s, err enomem)

-- osfs_init.c: osfs_kill_superblock
unfoldable pub osfs_kill_superblock : SuperBlock → SuperBlock
osfs_kill_superblock s = elim s.s_fs_info [
  | none ↦ s
  | some _ ↦ record s { s_fs_info = none; vfree_calls = s.vfree_calls + 1 }
]
