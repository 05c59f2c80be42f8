-- ===== src/Extent/Inode/Alloc.antt =====
-- Lab4/Lab4_Template_Optimize/inode.c: what osfs_alloc_extent hands out.
use native.Mathlib.Decide.{ℕ_discrete}
use fall_oslab.Base.{
  ℕ, zero, suc, ◌+◌, ◌^◌, ◌≤◌, ◌<◌, ◌≡◌, refl, ap, inl, inr, ◌⊎◌, Option, none, some, Bool, true,
  false, update, sub32, arith, Bool-cases, eq→==, ne→==,
}
use fall_oslab.Kernel.{Result, ok, err, enospc}
use fall_oslab.Extent.Types.{SbInfo}
use fall_oslab.Extent.Inode.{count_clear_from, set_bits, find_extent, osfs_alloc_extent}

-- The n bits from `i` on are clear.
abbrev pub Clear : (ℕ → Bool) → (n i : ℕ) → Type 0
Clear bits n i = (j : ℕ) → i ≤ j → j < i + n → bits j ≡ false

-- One of the n bits from `i` on is set.
abbrev pub Blocked : (ℕ → Bool) → (n i : ℕ) → Type 0
Blocked bits n i = (j : ℕ) × (i ≤ j) × (j < i + n) × (bits j ≡ true)

Clear-cons :
    (bits : ℕ → Bool) (n i : ℕ) → bits i ≡ false → Clear bits n (i + 1) → Clear bits (suc n) i
Clear-cons bits n i h c =
    λ j a b. elim (ℕ_discrete j i) [ yes e ↦ rw e h | no ne ↦ c j (omega arith) (omega arith) ]

-- The inner loop counts to n if the bits are clear, and stops short at one that is set.
count_clear_from_lem :
    (bits : ℕ → Bool) (n i : ℕ)
    → ((count_clear_from bits n i ≡ n) × Clear bits n i)
      ⊎ ((count_clear_from bits n i < n) × Blocked bits n i)
unfolding count_clear_from
count_clear_from_lem bits zero i = inl (refl, λ j a b. absurd (omega arith))
count_clear_from_lem bits (suc n) i = elim (Bool-cases (bits i)) [
  | inl h ↦ inr (rw h (omega arith), (i, omega arith, omega arith, h))
  | inr h ↦ elim (count_clear_from_lem bits n (i + 1)) [
    | inl (e, c) ↦ inl (rw h (ap suc e), Clear-cons bits n i h c)
    | inr (l, (j, a, b, s)) ↦ inr (rw h (omega (arith, l)), (j, omega arith, omega arith, s))
  ]
]

-- The first index of [lo, hi) from which n bits are clear.
abbrev pub IsFirstExtent : (ℕ → Bool) → (n lo hi : ℕ) → Option ℕ → Type 0
IsFirstExtent bits n lo hi none = (i : ℕ) → lo ≤ i → i < hi → Blocked bits n i
IsFirstExtent bits n lo hi (some i) =
    (lo ≤ i) × (i < hi) × Clear bits n i × ((j : ℕ) → lo ≤ j → j < i → Blocked bits n j)

IsFirstExtent-next :
    (bits : ℕ → Bool) (n lo hi : ℕ) (r : Option ℕ)
    → Blocked bits n lo
    → IsFirstExtent bits n (lo + 1) hi r
    → IsFirstExtent bits n lo hi r
IsFirstExtent-next bits n lo hi none h f =
    λ i a b. elim (ℕ_discrete i lo) [ yes e ↦ rw e h | no ne ↦ f i (omega arith) b ]
IsFirstExtent-next bits n lo hi (some i) h (a, b, c, f) = (
  omega arith,
  b,
  c,
  λ j x y. elim (ℕ_discrete j lo) [ yes e ↦ rw e h | no ne ↦ f j (omega arith) y ],
)

find_extent-IsFirstExtent :
    (bits : ℕ → Bool) (n r lo : ℕ) → IsFirstExtent bits n lo (lo + r) (find_extent bits n r lo)
unfolding find_extent
find_extent-IsFirstExtent bits n zero lo = λ i a b. absurd (omega arith)
find_extent-IsFirstExtent bits n (suc r) lo = elim (count_clear_from_lem bits n lo) [
  | inl (e, c) ↦
      rw (eq→== (count_clear_from bits n lo) n e)
        (omega arith, omega arith, c, λ j x y. absurd (omega arith))
  | inr (l, h) ↦ rw (ne→== (count_clear_from bits n lo) n (omega (arith, l))) (
      IsFirstExtent-next bits n lo (lo + suc r) (find_extent bits n r (lo + 1)) h
        (rw (hi_eq lo r) (find_extent-IsFirstExtent bits n r (lo + 1))))
]
  where
    hi_eq : (lo r : ℕ) → lo + suc r ≡ lo + 1 + r
    hi_eq lo r = omega arith

-- The bits from `i` on are set, and no other bit changes.
abbrev pub Sets : (old new : ℕ → Bool) → (n i : ℕ) → Type 0
Sets old new n i =
    ((j : ℕ) → i ≤ j → j < i + n → new j ≡ true) × ((j : ℕ) → (j < i) ⊎ (i + n ≤ j) → new j ≡ old j)

set_bits-Sets : (bits : ℕ → Bool) (n i : ℕ) → Sets bits (set_bits bits n i) n i
unfolding set_bits
set_bits-Sets bits zero i = (λ j a b. absurd (omega arith), λ j o. refl)
set_bits-Sets bits (suc n) i =
    let (inside, outside) = set_bits-Sets (update bits i true) n (i + 1) in
    (
      λ j a b. elim (ℕ_discrete j i) [
        | yes e ↦ ground (arith, outside j (inl (omega arith)))
        | no ne ↦ inside j (omega arith) (omega arith)
      ],
      λ j o. elim o [
        | inl l ↦ ground (arith, outside j (inl (omega arith)))
        | inr g ↦ ground (arith, outside j (inr (omega arith)))
      ],
    )

-- The outcome of osfs_alloc_extent: the lowest run of n clear bits below block_count is set and
-- given out, or there is no such run and nothing changes.
abbrev pub AllocatesExtent : (sb : SbInfo) → (n : ℕ) → SbInfo × Result ℕ → Type 0
AllocatesExtent sb n (sb', err e) =
    (e ≡ enospc) × (sb' ≡ sb) × ((i : ℕ) → i + n ≤ sb.block_count → Blocked sb.block_bitmap n i)
AllocatesExtent sb n (sb', ok i) =
    (i + n ≤ sb.block_count)
    × Clear sb.block_bitmap n i
    × ((j : ℕ) → j < i → Blocked sb.block_bitmap n j)
    × Sets sb.block_bitmap sb'.block_bitmap n i
    × (sb'
        ≡ record sb { block_bitmap = sb'.block_bitmap; nr_free_blocks = sub32 sb.nr_free_blocks n })

-- osfs_alloc_extent for n blocks, n at most block_count, which is below 2^32: it takes the lowest run
-- of n free blocks, sets exactly their bits and lowers nr_free_blocks by n; or it fails with -ENOSPC
-- and changes nothing, and then every run of n blocks has one that is taken.
pub osfs_alloc_extent_lem :
    (sb : SbInfo) (n : ℕ)
    → n ≤ sb.block_count
    → sb.block_count < 2 ^ 32
    → AllocatesExtent sb n (osfs_alloc_extent sb n)
unfolding osfs_alloc_extent
osfs_alloc_extent_lem sb n le small =
    answer (find_extent sb.block_bitmap n (sub32 sb.block_count n + 1) 0)
      (find_extent-IsFirstExtent sb.block_bitmap n (sub32 sb.block_count n + 1) 0)
  where
    answer :
        (r : Option ℕ)
        → IsFirstExtent sb.block_bitmap n 0 (0 + (sub32 sb.block_count n + 1)) r
        → AllocatesExtent sb n (elim r [
          | none ↦ (sb, err enospc)
          | some i ↦ (
            record sb {
              block_bitmap = set_bits sb.block_bitmap n i;
              nr_free_blocks = sub32 sb.nr_free_blocks n;
            },
            ok i,
          )
        ])
    answer none f = (refl, refl, λ i h. f i (omega arith) (omega arith))
    answer (some i) (a, b, c, f) =
        (omega arith, c, λ j h. f j (omega arith) h, set_bits-Sets sb.block_bitmap n i, refl)
