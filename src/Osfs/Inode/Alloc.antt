-- ===== src/Osfs/Inode/Alloc.antt =====
-- Lab4/Lab4_Template_Done/inode.c: what the two allocators hand out, and how the bits are counted.
use fall_oslab.Base.{
  ℕ, zero, suc, ◌+◌, ◌-◌, ◌≤◌, ◌<◌, ◌≡◌, refl, ap, inl, inr, Option, none, some, Bool, true, false,
  ◌==◌, update, if◌then◌else◌, sub32, arith, Bool-cases, ==→eq,
}
use fall_oslab.Kernel.{Kernel, Inode, Result, ok, err, enospc}
use fall_oslab.Osfs.Types.{SbInfo}
use fall_oslab.Osfs.Inode.{
  load_inode, osfs_iget, osfs_get_osfs_inode, find_clear_bit, osfs_get_free_inode,
  osfs_alloc_data_block,
}

-- The first clear bit from `lo` on and below `hi`, if there is one.
abbrev pub IsFirstClear : (ℕ → Bool) → (lo hi : ℕ) → Option ℕ → Type 0
IsFirstClear bits lo hi none = (j : ℕ) → lo ≤ j → j < hi → bits j ≡ true
IsFirstClear bits lo hi (some i) =
    (lo ≤ i) × (i < hi) × (bits i ≡ false) × ((j : ℕ) → lo ≤ j → j < i → bits j ≡ true)

IsFirstClear-next :
    (bits : ℕ → Bool) (lo hi hi' : ℕ) (r : Option ℕ)
    → bits lo ≡ true
    → hi ≡ hi'
    → IsFirstClear bits (lo + 1) hi r
    → IsFirstClear bits lo hi' r
IsFirstClear-next bits lo hi hi' none h e f = λ j a b. grind (arith, f j)
IsFirstClear-next bits lo hi hi' (some i) h e f =
    (omega arith, omega arith, f.2, λ j a b. grind (arith, f.3 j))

find_clear_bit-IsFirstClear :
    (bits : ℕ → Bool) (n lo hi : ℕ)
    → lo + n ≡ hi
    → IsFirstClear bits lo hi (find_clear_bit bits n lo)
unfolding find_clear_bit
find_clear_bit-IsFirstClear bits zero lo hi e = λ j a b. absurd (omega arith)
find_clear_bit-IsFirstClear bits (suc n) lo hi e = elim (Bool-cases (bits lo)) [
  | inl h ↦ rw h (
      IsFirstClear-next bits lo hi hi (find_clear_bit bits n (lo + 1)) h refl
        (find_clear_bit-IsFirstClear bits n (lo + 1) hi (omega arith)))
  | inr h ↦ rw h (omega arith, omega arith, h, λ j a b. absurd (omega arith))
]

-- What osfs_get_free_inode does to the superblock when it takes number `ino`.
abbrev pub take_inode : SbInfo → ℕ → SbInfo
take_inode sb ino = record sb {
  inode_bitmap = update sb.inode_bitmap ino true;
  nr_free_inodes = sub32 sb.nr_free_inodes 1;
}

abbrev pub take_block : SbInfo → ℕ → SbInfo
take_block sb i = record sb {
  block_bitmap = update sb.block_bitmap i true;
  nr_free_blocks = sub32 sb.nr_free_blocks 1;
}

-- An allocator's answer: the first clear bit of [lo, hi), taken; or ENOSPC and nothing changed,
-- with every bit of the range set.
abbrev pub Allocates :
    (SbInfo → ℕ → SbInfo) → (ℕ → Bool) → (lo hi : ℕ) → SbInfo → SbInfo × Result ℕ → Type 0
Allocates taken bits lo hi sb (sb', err e) =
    (e ≡ enospc) × (sb' ≡ sb) × IsFirstClear bits lo hi none
Allocates taken bits lo hi sb (sb', ok i) = (sb' ≡ taken sb i) × IsFirstClear bits lo hi (some i)

-- osfs_alloc_data_block takes the lowest free block below block_count: it sets that block's bit and
-- no other, and counts one free block less. It fails, with ENOSPC and with nothing changed, only if
-- every block is in use.
pub osfs_alloc_data_block-Allocates :
    (sb : SbInfo)
    → Allocates take_block sb.block_bitmap 0 sb.block_count sb (osfs_alloc_data_block sb)
unfolding osfs_alloc_data_block
osfs_alloc_data_block-Allocates sb =
    go (find_clear_bit bits sb.block_count 0) refl
      (find_clear_bit-IsFirstClear bits sb.block_count 0 sb.block_count (omega arith))
  where
    bits : ℕ → Bool
    bits = sb.block_bitmap

    go :
        (r : Option ℕ)
        → find_clear_bit bits sb.block_count 0 ≡ r
        → IsFirstClear bits 0 sb.block_count r
        → Allocates take_block bits 0 sb.block_count sb (osfs_alloc_data_block sb)
    go none e f = rw (e, osfs_alloc_data_block) (refl, refl, f)
    go (some i) e f = rw (e, osfs_alloc_data_block) (refl, f)

-- osfs_get_free_inode takes the lowest free inode number from 1 on and below inode_count: it sets
-- that number's bit and no other, and lowers nr_free_inodes by one. It fails, with ENOSPC and with
-- nothing changed, only if every such number is taken.
pub osfs_get_free_inode-Allocates :
    (sb : SbInfo)
    → 1 ≤ sb.inode_count
    → Allocates take_inode sb.inode_bitmap 1 sb.inode_count sb (osfs_get_free_inode sb)
unfolding osfs_get_free_inode
osfs_get_free_inode-Allocates sb h =
    go (find_clear_bit bits (sb.inode_count - 1) 1) refl
      (find_clear_bit-IsFirstClear bits (sb.inode_count - 1) 1 sb.inode_count (omega arith))
  where
    bits : ℕ → Bool
    bits = sb.inode_bitmap

    go :
        (r : Option ℕ)
        → find_clear_bit bits (sb.inode_count - 1) 1 ≡ r
        → IsFirstClear bits 1 sb.inode_count r
        → Allocates take_inode bits 1 sb.inode_count sb (osfs_get_free_inode sb)
    go none e f = rw (e, osfs_get_free_inode) (refl, refl, f)
    go (some i) e f = rw (e, osfs_get_free_inode) (refl, f)

-- The number of clear bits of [lo, lo + n).
unfoldable pub count_clear : (ℕ → Bool) → (n lo : ℕ) → ℕ
count_clear bits zero lo = 0
count_clear bits (suc n) lo =
    let rest = count_clear bits n (lo + 1) in if bits lo then rest else suc rest

count_clear-update_below :
    (bits : ℕ → Bool) (b : Bool) (n lo i : ℕ)
    → i < lo
    → count_clear (update bits i b) n lo ≡ count_clear bits n lo
unfolding count_clear
count_clear-update_below bits b zero lo i h = refl
count_clear-update_below bits b (suc n) lo i h =
    ground (arith, count_clear-update_below bits b n (lo + 1) i)

-- Setting a clear bit of the range takes one from the count.
pub count_clear-set :
    (bits : ℕ → Bool) (n lo i : ℕ)
    → lo ≤ i
    → i < lo + n
    → bits i ≡ false
    → suc (count_clear (update bits i true) n lo) ≡ count_clear bits n lo
unfolding count_clear
count_clear-set bits zero lo i a b h = absurd (omega arith)
count_clear-set bits (suc n) lo i a b h = elim (Bool-cases (i == lo)) [
  | inl e ↦ ground (arith, count_clear-update_below bits true n (lo + 1) i, ==→eq i lo e)
  | inr e ↦ ground (arith, count_clear-set bits n (lo + 1) i)
]

-- A clear bit of the range makes the count positive.
pub count_clear-pos :
    (bits : ℕ → Bool) (n lo i : ℕ)
    → lo ≤ i
    → i < lo + n
    → bits i ≡ false
    → 0 < count_clear bits n lo
count_clear-pos bits n lo i a b h = omega (arith, count_clear-set bits n lo i a b h)

pub count_clear-zero :
    (bits : ℕ → Bool) (n lo : ℕ)
    → ((j : ℕ) → lo ≤ j → j < lo + n → bits j ≡ true)
    → count_clear bits n lo ≡ 0
unfolding count_clear
count_clear-zero bits zero lo h = refl
count_clear-zero bits (suc n) lo h =
    rw (h lo (omega arith) (omega arith))
      (count_clear-zero bits n (lo + 1) (λ j a b. h j (omega arith) (omega arith)))

pub count_clear-le : (bits : ℕ → Bool) (n lo : ℕ) → count_clear bits n lo ≤ n
unfolding count_clear
count_clear-le bits zero lo = omega arith
count_clear-le bits (suc n) lo = ground (arith, count_clear-le bits n (lo + 1))

-- osfs_get_osfs_inode accepts the numbers from 1 up to inode_count.
pub osfs_get_osfs_inode_lem :
    (sb : SbInfo) (ino : ℕ) → 1 ≤ ino → ino < sb.inode_count → osfs_get_osfs_inode sb ino ≡ some ino
unfolding osfs_get_osfs_inode
osfs_get_osfs_inode_lem sb ino a b = ground arith

-- osfs_iget on a valid number, when new_inode succeeds.
pub osfs_iget_lem :
    (k : Kernel) (sb : SbInfo) (blank : Inode) (ino : ℕ)
    → 1 ≤ ino
    → ino < sb.inode_count
    → osfs_iget k sb (some blank) ino ≡ ok (load_inode k sb blank ino ino)
unfolding osfs_iget
osfs_iget_lem k sb blank ino a b = rw (osfs_get_osfs_inode_lem sb ino a b, osfs_iget)

-- What the loaded inode has from the entry.
pub load_inode_fields :
    (k : Kernel) (sb : SbInfo) (blank : Inode) (ino : ℕ)
    → let inode = load_inode k sb blank ino ino in
      (inode.i_ino ≡ ino) × (inode.i_private ≡ ino) × (inode.i_size ≡ (sb.inode_table ino).i_size)
unfolding load_inode
load_inode_fields k sb blank ino = (refl, refl, refl)

pub count_clear_all :
    (bits : ℕ → Bool) (n lo : ℕ) → ((j : ℕ) → bits j ≡ false) → count_clear bits n lo ≡ n
unfolding count_clear
count_clear_all bits zero lo h = refl
count_clear_all bits (suc n) lo h = rw (h lo) (ap suc (count_clear_all bits n (lo + 1) h))
