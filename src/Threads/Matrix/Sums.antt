-- ===== src/Threads/Matrix/Sums.antt =====
-- The sums of a product of matrices, and the bound that the loops have reached in each.
use fall_oslab.Base.{
  ℕ, zero, suc, ◌+◌, ◌*◌, ◌≤◌, ◌<◌, ◌≡◌, refl, ap, false, arith, ltb, leb, ◌==◌, ◌&&◌,
  if◌then◌else◌, inl, inr, Bool-cases,
}
use fall_oslab.Threads.Matrix.{Matrix, Bounds, dot}

pub dot-none : (x y : Matrix) (i j from to : ℕ) → to ≤ from → dot x y i j from to ≡ 0
dot-none x y i j from zero h = refl
dot-none x y i j from (suc k) h = ground (arith, h)

pub dot-next :
    (x y : Matrix) (i j from k : ℕ)
    → from ≤ k
    → dot x y i j from (suc k) ≡ dot x y i j from k + x i k * y k j
dot-next x y i j from k h = ground (arith, h)

-- A sum in two parts.
pub dot-split :
    (x y : Matrix) (i j from mid to : ℕ)
    → from ≤ mid
    → mid ≤ to
    → dot x y i j from mid + dot x y i j mid to ≡ dot x y i j from to
dot-split x y i j from mid zero h g = omega (arith, dot-none x y i j from mid (omega arith))
dot-split x y i j from mid (suc k) h g = elim (Bool-cases (leb mid k)) [
  | inl e ↦
      let mid_le : mid ≤ k = ground arith in
      omega (
        arith,
        dot-split x y i j from mid k h mid_le,
        dot-next x y i j mid k mid_le,
        dot-next x y i j from k (omega arith),
      )
  | inr e ↦
      let mid_eq : mid ≡ suc k = ground arith in
      omega (arith, dot-none x y i j mid (suc k) (omega arith), ap (dot x y i j from) mid_eq)
]

-- The bound of the k that have been added to an element.
abbrev pub upto : (b : Bounds) (i j k p q : ℕ) → ℕ
upto b i j k p q =
    if ltb p b.row_from
    then b.inner_from
    else if ltb p i
    then b.inner_to
    else if ltb i p
    then b.inner_from
    else if ltb q j
    then b.inner_to
    else if ltb j q
    then b.inner_from
    else k

pub upto-row :
    (b : Bounds) (i j p q : ℕ)
    → b.row_from ≤ i
    → q < b.matrix_col_y
    → b.matrix_col_y ≤ j
    → upto b i j b.inner_from p q ≡ upto b (i + 1) 0 b.inner_from p q
upto-row b i j p q h g l = ground arith

pub upto-column :
    (b : Bounds) (i j p q : ℕ)
    → b.row_from ≤ i
    → upto b i j b.inner_to p q ≡ upto b i (j + 1) b.inner_from p q
upto-column b i j p q h = ground arith

pub upto-element : (b : Bounds) (i j k : ℕ) → b.row_from ≤ i → upto b i j k i j ≡ k
upto-element b i j k h = ground arith

pub upto-others :
    (b : Bounds) (i j k l p q : ℕ)
    → (p == i && q == j) ≡ false
    → upto b i j k p q ≡ upto b i j l p q
upto-others b i j k l p q e = ground arith
