-- ===== src/Osfs/Inode.antt =====
-- Lab4/Lab4_Template_Done/inode.c: inode numbers, data blocks, and the VFS inode of an entry.
pub mod Alloc
use fall_oslab.Base.{
  ℕ, zero, suc, ◌+◌, ◌-◌, Option, none, some, Bool, true, false, not, ◌||◌, ◌==◌, leb, update,
  if◌then◌else◌, add32, sub32,
}
use fall_oslab.Kernel.{Kernel, Result, ok, err, enospc, efault, enomem, Inode, dir_ops, file_ops}
use fall_oslab.Osfs.Types.{SbInfo}

-- A pointer to the entry is its index; NULL is `none`.
unfoldable pub osfs_get_osfs_inode : SbInfo → ℕ → Option ℕ
osfs_get_osfs_inode sb ino = if ino == 0 || leb sb.inode_count ino then none else some ino

-- for (i = from; rounds left; i++) if (!test_bit(i, bitmap)): the first clear bit.
unfoldable pub find_clear_bit : (ℕ → Bool) → (rounds : ℕ) → (i : ℕ) → Option ℕ
find_clear_bit bits zero i = none
find_clear_bit bits (suc n) i =
    let rest = find_clear_bit bits n (i + 1) in if not (bits i) then some i else rest

unfoldable pub osfs_get_free_inode : SbInfo → SbInfo × Result ℕ
osfs_get_free_inode sb = elim (find_clear_bit sb.inode_bitmap (sb.inode_count - 1) 1) [
  | none ↦ (sb, err enospc)
  | some ino ↦ (
    record sb {
      inode_bitmap = update sb.inode_bitmap ino true;
      nr_free_inodes = sub32 sb.nr_free_inodes 1;
    },
    ok ino,
  )
]

-- `*block_no = i` is the number in the result.
unfoldable pub osfs_alloc_data_block : SbInfo → SbInfo × Result ℕ
osfs_alloc_data_block sb = elim (find_clear_bit sb.block_bitmap sb.block_count 0) [
  | none ↦ (sb, err enospc)
  | some i ↦ (
    record sb {
      block_bitmap = update sb.block_bitmap i true;
      nr_free_blocks = sub32 sb.nr_free_blocks 1;
    },
    ok i,
  )
]

unfoldable pub osfs_free_data_block : SbInfo → ℕ → SbInfo
osfs_free_data_block sb block_no = record sb {
  block_bitmap = update sb.block_bitmap block_no false;
  nr_free_blocks = add32 sb.nr_free_blocks 1;
}

-- The assignments of osfs_iget, from the entry `p`; the inode is also put in the inode hash.
unfoldable pub load_inode : Kernel → SbInfo → Inode → (p ino : ℕ) → Inode
load_inode k sb inode p ino =
    let oi = sb.inode_table p in
    record inode {
      i_ino = ino;
      i_mode = oi.i_mode;
      i_uid = oi.i_uid;
      i_gid = oi.i_gid;
      i_atime = oi.i_atime;
      i_mtime = oi.i_mtime;
      i_ctime = oi.i_ctime;
      i_size = oi.i_size;
      i_blocks = oi.i_blocks;
      i_private = p;
      i_ops =
          if k.s_isdir oi.i_mode
          then dir_ops
          else (if k.s_isreg oi.i_mode then file_ops else inode.i_ops);
      hashed = true;
    }

-- `fresh` is what new_inode(sb) returns.
unfoldable pub osfs_iget : Kernel → SbInfo → Option Inode → ℕ → Result Inode
osfs_iget k sb fresh ino = elim (osfs_get_osfs_inode sb ino) [
  | none ↦ err efault
  | some p ↦ elim fresh [ none ↦ err enomem | some inode ↦ ok (load_inode k sb inode p ino) ]
]
