-- ===== src/Osfs/Super.antt =====
-- Lab4/Lab4_Template_Done/super.c and the unmounting in osfs_init.c.
pub mod Mount
use fall_oslab.Base.{
  ℕ, ◌+◌, ◌-◌, Option, none, some, Bool, false, true, update, if◌then◌else◌, sub32,
}
use fall_oslab.Kernel.{Kernel, Result, ok, err, enomem, eio, Inode, dir_ops, Timespec}
use fall_oslab.Osfs.Types.{
  SbInfo, put_inode, zero_inode, osfs_magic, inode_count_max, data_block_count, root_inode,
}
use fall_oslab.Osfs.Inode.{osfs_get_osfs_inode}

-- The fields of `struct super_block` that osfs uses. `s_fs_info` is the pointer to the region of
-- vmalloc with what stands there; `vfree_calls` counts how often that region was freed, and
-- `iput_calls` how often the code drops the root inode.
pub record SuperBlock : Type 0 where
  pub s_magic : ℕ
  pub s_fs_info : Option SbInfo
  pub s_root : Option Inode
  pub vfree_calls : ℕ
  pub iput_calls : ℕ

unfoldable pub osfs_destroy_inode : Inode → Inode
osfs_destroy_inode inode = record inode { i_private = 0 }

-- The region after the partition and the initialisation of the superblock.
unfoldable pub fresh_sb_info : Kernel → SbInfo
fresh_sb_info k = record {
  magic = osfs_magic;
  block_size = k.block_size;
  inode_count = inode_count_max;
  block_count = data_block_count;
  nr_free_inodes = inode_count_max - 1;
  nr_free_blocks = data_block_count;
  inode_bitmap = λ _. false;
  block_bitmap = λ _. false;
  inode_table = λ _. zero_inode;
  data_blocks = λ _. 0;
}

-- The root's VFS inode, up to i_private.
unfoldable pub init_root_inode : Kernel → Timespec → Inode → Inode
init_root_inode k now fresh = record fresh {
  i_ino = root_inode;
  i_ops = dir_ops;
  i_mode = k.s_ifdir_0755;
  i_nlink = 2;
  i_atime = now;
  i_mtime = now;
  i_ctime = now;
}

-- The region with the root's entry, inode number and block taken.
unfoldable pub init_root_entry : SbInfo → (p : ℕ) → Timespec → Inode → SbInfo
init_root_entry sb p now root =
    let entry = record zero_inode {
      i_ino = root_inode;
      i_mode = root.i_mode;
      i_links_count = 2;
      i_atime = now;
      i_mtime = now;
      i_ctime = now;
    } in
    put_inode
      (record sb {
        inode_bitmap = update sb.inode_bitmap root_inode true;
        block_bitmap = update sb.block_bitmap 0 true;
        nr_free_blocks = sub32 sb.nr_free_blocks 1;
      })
      p entry

-- `memory` says whether vmalloc succeeds, `fresh` is what new_inode(sb) returns, `now` and `now'`
-- what current_time does, and `rooted` says whether d_make_root succeeds.
unfoldable pub osfs_fill_super :
    Kernel
    → (memory : Bool) → (fresh : Option Inode) → (now now' : Timespec) → (rooted : Bool)
    → SuperBlock
    → SuperBlock × Result (Unit {0})
osfs_fill_super k memory fresh now now' rooted s =
    let sb = fresh_sb_info k in
    let s' = record s { s_magic = sb.magic; s_fs_info = some sb } in
    let freed = record s' { vfree_calls = s.vfree_calls + 1 } in
    let filled : SuperBlock × Result (Unit {0}) = elim fresh [
      | none ↦ (freed, err enomem)
      | some blank ↦
          let root = init_root_inode k now blank in
          elim (osfs_get_osfs_inode sb root_inode) [
            | none ↦ (record freed { iput_calls = s.iput_calls + 1 }, err eio)
            | some p ↦
                let sb' = init_root_entry sb p now' root in
                let owned =
                  k.inode_init_owner (record root { i_private = p; i_size = 0 }) none root.i_mode in
                if rooted
                then (record s' { s_fs_info = some sb'; s_root = some owned }, ok tt)
                else (
                  record freed { s_fs_info = some sb'; iput_calls = s.iput_calls + 1 },
                  err enomem,
                )
          ]
    ] in
    if memory then filled else (s, err enomem)

-- osfs_init.c: osfs_kill_superblock
unfoldable pub osfs_kill_superblock : SuperBlock → SuperBlock
osfs_kill_superblock s = elim s.s_fs_info [
  | none ↦ s
  | some _ ↦ record s { s_fs_info = none; vfree_calls = s.vfree_calls + 1 }
]
