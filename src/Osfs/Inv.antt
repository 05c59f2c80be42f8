-- ===== src/Osfs/Inv.antt =====
-- The invariant of the region of Lab4/Lab4_Template_Done, and the changes that keep it.
use fall_oslab.Base.{
  ℕ, ◌+◌, ◌*◌, ◌≤◌, ◌<◌, ◌≡◌, ◌≢◌, ◌⊎◌, inl, inr, Bool, true, false, not, ◌||◌, ◌==◌, mul32, arith,
}
use native.Mathlib.Decide.{dec_lt}
use fall_oslab.Kernel.{Kernel}
use fall_oslab.Osfs.Types.{SbInfo, OsfsInode, put_inode, root_inode}
use fall_oslab.Osfs.Inode.Alloc.{
  take_inode, take_block, count_clear, count_clear-set, count_clear-le, Allocates,
  osfs_alloc_data_block-Allocates,
}
use fall_oslab.Osfs.Inode.{osfs_alloc_data_block}
use mathlib.Core.Path.{subst}

-- The root's entry has a block although its i_blocks is 0; any other entry has one if i_blocks is
-- not 0.
abbrev pub owns_block : SbInfo → ℕ → Bool
owns_block sb p = p == root_inode || not ((sb.inode_table p).i_blocks == 0)

pub record IsValid (k : Kernel) (sb : SbInfo) : Type 0 where
  pub block_size_eq : sb.block_size ≡ k.block_size
  pub block_size_le : k.block_size ≤ 65536
  pub inode_count_eq : sb.inode_count ≡ 20
  pub block_count_eq : sb.block_count ≡ 20
  pub counted : sb.nr_free_blocks ≡ count_clear sb.block_bitmap 20 0
  pub root_taken : sb.inode_bitmap root_inode ≡ true
  pub owned :
      (p : ℕ)
      → owns_block sb p ≡ true
      → ((sb.inode_table p).i_block < 20) × (sb.block_bitmap (sb.inode_table p).i_block ≡ true)
  pub apart :
      (p q : ℕ)
      → owns_block sb p ≡ true
      → owns_block sb q ≡ true
      → p ≢ q
      → (sb.inode_table p).i_block ≢ (sb.inode_table q).i_block
  pub sized : (p : ℕ) → (sb.inode_table p).i_size ≤ k.block_size

-- The offset of a block below 20 does not wrap.
pub mul32_lem : (i b : ℕ) → i < 20 → b ≤ 65536 → mul32 i b ≡ i * b
mul32_lem i b h g = let le : i * b ≤ 20 * 65536 = grind arith in omega arith

block_below : (i j b : ℕ) → i < j → i * b + b ≤ j * b
block_below i j b h = grind arith

-- Distinct blocks do not overlap, and a block lies within the data area.
pub blocks_apart : (i j b : ℕ) → i ≢ j → (i * b + b ≤ j * b) ⊎ (j * b + b ≤ i * b)
blocks_apart i j b ne = elim (dec_lt i j) [
  | yes h ↦ inl (block_below i j b h)
  | no h ↦ inr (block_below j i b (omega arith))
]

pub block_within : (i b : ℕ) → i < 20 → i * b + b ≤ 20 * b
block_within i b h = block_below i 20 b h

module _ {k : Kernel} {sb : SbInfo} (v : IsValid k sb) where
  pub take_inode-IsValid : (ino : ℕ) → IsValid k (take_inode sb ino)
  take_inode-IsValid ino = record {
    block_size_eq = v.block_size_eq;
    block_size_le = v.block_size_le;
    inode_count_eq = v.inode_count_eq;
    block_count_eq = v.block_count_eq;
    counted = v.counted;
    root_taken = ground (arith, v.root_taken);
    owned = v.owned;
    apart = v.apart;
    sized = v.sized;
  }

  -- The contents of the data area and the count of free inodes are free.
  pub data_blocks-IsValid :
      (m : ℕ → ℕ) (n : ℕ) → IsValid k (record sb { data_blocks = m; nr_free_inodes = n })
  data_blocks-IsValid m n = record {
    block_size_eq = v.block_size_eq;
    block_size_le = v.block_size_le;
    inode_count_eq = v.inode_count_eq;
    block_count_eq = v.block_count_eq;
    counted = v.counted;
    root_taken = v.root_taken;
    owned = v.owned;
    apart = v.apart;
    sized = v.sized;
  }

  -- An entry may change all but its block, within the block's size.
  pub put_inode-IsValid :
      (p : ℕ) (oi : OsfsInode)
      → oi.i_block ≡ (sb.inode_table p).i_block
      → oi.i_blocks ≡ (sb.inode_table p).i_blocks
      → oi.i_size ≤ k.block_size
      → IsValid k (put_inode sb p oi)
  put_inode-IsValid p oi same_block same_blocks small = record {
    block_size_eq = v.block_size_eq;
    block_size_le = v.block_size_le;
    inode_count_eq = v.inode_count_eq;
    block_count_eq = v.block_count_eq;
    counted = v.counted;
    root_taken = v.root_taken;
    owned = λ q h. grind (arith, v.owned q);
    apart = λ q r hq hr ne. grind (arith, v.apart q r);
    sized = λ q. ground (arith, v.sized q);
  }

  -- A free block goes to one entry.
  pub take_block-IsValid :
      (p i : ℕ) (oi : OsfsInode)
      → i < 20
      → sb.block_bitmap i ≡ false
      → oi.i_block ≡ i
      → oi.i_size ≤ k.block_size
      → IsValid k (put_inode (take_block sb i) p oi)
  take_block-IsValid p i oi lt clear e small = record {
    block_size_eq = v.block_size_eq;
    block_size_le = v.block_size_le;
    inode_count_eq = v.inode_count_eq;
    block_count_eq = v.block_count_eq;
    counted = omega (
      arith,
      v.counted,
      count_clear-set sb.block_bitmap 20 0 i (omega arith) (omega arith) clear,
      count_clear-le sb.block_bitmap 20 0,
    );
    root_taken = v.root_taken;
    owned = λ q h. ground (arith, v.owned q);
    apart = λ q r hq hr ne. ground (arith, v.apart q r, v.owned q, v.owned r);
    sized = λ q. ground (arith, v.sized q);
  }

-- In a valid region the allocator searches the twenty blocks.
pub alloc_in_valid :
    {k : Kernel} {sb : SbInfo}
    → IsValid k sb
    → Allocates take_block sb.block_bitmap 0 20 sb (osfs_alloc_data_block sb)
alloc_in_valid {sb} v =
    subst (λ n. Allocates take_block sb.block_bitmap 0 n sb (osfs_alloc_data_block sb))
      v.block_count_eq (osfs_alloc_data_block-Allocates sb)
