-- ===== src/Extent/Inode/Numbers.antt =====
-- Lab4/Lab4_Template_Optimize/inode.c: what osfs_get_free_inode hands out.
use fall_oslab.Base.{
  ℕ, zero, suc, ◌+◌, ◌-◌, ◌≤◌, ◌<◌, ◌≡◌, refl, inl, inr, Option, none, some, Bool, true, false,
  update, sub32, arith, Bool-cases,
}
use fall_oslab.Kernel.{Result, ok, err, enospc}
use fall_oslab.Extent.Types.{SbInfo}
use fall_oslab.Extent.Inode.{free_inode_from, osfs_get_free_inode, osfs_get_osfs_inode}

-- The first clear bit from `lo` on and below `hi`, if there is one.
abbrev pub IsFirstClear : (ℕ → Bool) → (lo hi : ℕ) → Option ℕ → Type 0
IsFirstClear bits lo hi none = (j : ℕ) → lo ≤ j → j < hi → bits j ≡ true
IsFirstClear bits lo hi (some i) =
    (lo ≤ i) × (i < hi) × (bits i ≡ false) × ((j : ℕ) → lo ≤ j → j < i → bits j ≡ true)

IsFirstClear-next :
    (bits : ℕ → Bool) (lo hi : ℕ) (r : Option ℕ)
    → bits lo ≡ true
    → IsFirstClear bits (lo + 1) hi r
    → IsFirstClear bits lo hi r
IsFirstClear-next bits lo hi none h f = λ j a b. grind (arith, f j)
IsFirstClear-next bits lo hi (some i) h f =
    (omega (arith, f.0), f.1, f.2, λ j a b. grind (arith, f.3 j))

free_inode_from-IsFirstClear :
    (bits : ℕ → Bool) (n lo hi : ℕ)
    → lo + n ≡ hi
    → IsFirstClear bits lo hi (free_inode_from bits n lo)
unfolding free_inode_from
free_inode_from-IsFirstClear bits zero lo hi e = λ j a b. absurd (omega arith)
free_inode_from-IsFirstClear bits (suc n) lo hi e = elim (Bool-cases (bits lo)) [
  | inl h ↦ rw h (
      IsFirstClear-next bits lo hi (free_inode_from bits n (lo + 1)) h
        (free_inode_from-IsFirstClear bits n (lo + 1) hi (omega arith)))
  | inr h ↦ rw h (omega arith, omega arith, h, λ j a b. absurd (omega arith))
]

-- The lowest free inode number is taken, or there is none and nothing changes.
abbrev pub AllocatesInode : (sb : SbInfo) → SbInfo × Result ℕ → Type 0
AllocatesInode sb (sb', err e) =
    (sb' ≡ sb) × ((j : ℕ) → 1 ≤ j → j < sb.inode_count → sb.inode_bitmap j ≡ true)
AllocatesInode sb (sb', ok ino) =
    (1 ≤ ino)
    × (ino < sb.inode_count)
    × (sb.inode_bitmap ino ≡ false)
    × (sb' ≡ record sb {
      inode_bitmap = update sb.inode_bitmap ino true;
      nr_free_inodes = sub32 sb.nr_free_inodes 1;
    })

pub osfs_get_free_inode_lem :
    (sb : SbInfo) → 1 ≤ sb.inode_count → AllocatesInode sb (osfs_get_free_inode sb)
unfolding osfs_get_free_inode
osfs_get_free_inode_lem sb h = answer (free_inode_from sb.inode_bitmap (sb.inode_count - 1) 1) (
    free_inode_from-IsFirstClear sb.inode_bitmap (sb.inode_count - 1) 1 sb.inode_count
      (omega arith))
  where
    answer :
        (r : Option ℕ)
        → IsFirstClear sb.inode_bitmap 1 sb.inode_count r
        → AllocatesInode sb (elim r [
          | none ↦ (sb, err enospc)
          | some ino ↦ (
            record sb {
              inode_bitmap = update sb.inode_bitmap ino true;
              nr_free_inodes = sub32 sb.nr_free_inodes 1;
            },
            ok ino,
          )
        ])
    answer none f = (refl, f)
    answer (some i) f = (f.0, f.1, f.2, refl)

pub osfs_get_osfs_inode_lem :
    (sb : SbInfo) (ino : ℕ) → 1 ≤ ino → ino < sb.inode_count → osfs_get_osfs_inode sb ino ≡ some ino
unfolding osfs_get_osfs_inode
osfs_get_osfs_inode_lem sb ino a b = ground arith
