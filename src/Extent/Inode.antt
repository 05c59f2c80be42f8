-- ===== src/Extent/Inode.antt =====
-- Lab4/Lab4_Template_Optimize/inode.c: inode numbers, extents, and the VFS inode of an entry.
pub mod Alloc
pub mod Numbers
use fall_oslab.Base.{
  ℕ, zero, suc, ◌+◌, ◌-◌, Option, none, some, Bool, true, false, not, ◌||◌, ◌==◌, leb, update,
  if◌then◌else◌, sub32,
}
use fall_oslab.Kernel.{Kernel, Result, ok, err, enospc, efault, enomem, Inode, dir_ops, file_ops}
use fall_oslab.Extent.Types.{SbInfo}

-- A pointer to the entry is its index; NULL is `none`.
unfoldable pub osfs_get_osfs_inode : SbInfo → ℕ → Option ℕ
osfs_get_osfs_inode sb ino = if ino == 0 || leb sb.inode_count ino then none else some ino

-- for (ino = from; rounds left; ino++) if (!test_bit(ino, bitmap))
unfoldable pub free_inode_from : (ℕ → Bool) → (rounds : ℕ) → (ino : ℕ) → Option ℕ
free_inode_from bits zero ino = none
free_inode_from bits (suc n) ino =
    let rest = free_inode_from bits n (ino + 1) in if not (bits ino) then some ino else rest

unfoldable pub osfs_get_free_inode : SbInfo → SbInfo × Result ℕ
osfs_get_free_inode sb = elim (free_inode_from sb.inode_bitmap (sb.inode_count - 1) 1) [
  | none ↦ (sb, err enospc)
  | some ino ↦ (
    record sb {
      inode_bitmap = update sb.inode_bitmap ino true;
      nr_free_inodes = sub32 sb.nr_free_inodes 1;
    },
    ok ino,
  )
]

-- `count` after the first inner loop: the clear bits from `i` on, at most `rounds`.
unfoldable pub count_clear_from : (ℕ → Bool) → (rounds : ℕ) → (i : ℕ) → ℕ
count_clear_from bits zero i = 0
count_clear_from bits (suc n) i =
    let rest = count_clear_from bits n (i + 1) in if bits i then 0 else suc rest

-- The second inner loop.
unfoldable pub set_bits : (ℕ → Bool) → (rounds : ℕ) → (i : ℕ) → ℕ → Bool
set_bits bits zero i = bits
set_bits bits (suc n) i = set_bits (update bits i true) n (i + 1)

-- The outer loop: the first index at which nr_blocks bits are clear.
unfoldable pub find_extent : (ℕ → Bool) → (nr_blocks rounds i : ℕ) → Option ℕ
find_extent bits nr_blocks zero i = none
find_extent bits nr_blocks (suc n) i =
    let rest = find_extent bits nr_blocks n (i + 1) in
    if count_clear_from bits nr_blocks i == nr_blocks then some i else rest

-- `*start_block = i` is the number in the result.
unfoldable pub osfs_alloc_extent : SbInfo → (nr_blocks : ℕ) → SbInfo × Result ℕ
osfs_alloc_extent sb nr_blocks =
    elim (find_extent sb.block_bitmap nr_blocks (sub32 sb.block_count nr_blocks + 1) 0) [
      | none ↦ (sb, err enospc)
      | some i ↦ (
        record sb {
          block_bitmap = set_bits sb.block_bitmap nr_blocks i;
          nr_free_blocks = sub32 sb.nr_free_blocks nr_blocks;
        },
        ok i,
      )
    ]

-- The assignments of osfs_iget, from the entry `p`; the inode is also put in the inode hash.
unfoldable pub load_inode : Kernel → SbInfo → Inode → (p ino : ℕ) → Inode
load_inode k sb inode p ino =
    let oi = sb.inode_table p in
    record inode {
      i_ino = ino;
      i_mode = oi.i_mode;
      i_size = oi.i_size;
      i_private = p;
      i_ops = if k.s_isdir oi.i_mode then dir_ops else file_ops;
      hashed = true;
    }

-- `fresh` is what new_inode(sb) returns.
unfoldable pub osfs_iget : Kernel → SbInfo → Option Inode → ℕ → Result Inode
osfs_iget k sb fresh ino = elim (osfs_get_osfs_inode sb ino) [
  | none ↦ err efault
  | some p ↦ elim fresh [ none ↦ err enomem | some inode ↦ ok (load_inode k sb inode p ino) ]
]
