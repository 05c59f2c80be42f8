-- ===== src/Threads/Matrix/Loop.antt =====
-- The loops over a product of matrices: what one action of a thread does to the elements of z.
use fall_oslab.Base.{
  ℕ, zero, suc, ◌+◌, ◌*◌, ◌-◌, ◌%◌, ◌^◌, ◌≤◌, ◌<◌, ◌≡◌, refl, sym, ap, ◌∙◌, Option, none, some,
  true, arith, ltb, ◌==◌, ◌&&◌, if◌then◌else◌, add32, mul32, ◌⊎◌, inl, inr, Bool-cases, ltb→lt,
}
use fall_oslab.Threads.Matrix.{
  Matrix, Bounds, LoopPc, for_i, for_j, for_k, load_z, store_z, set_element, loop, dot,
}
use fall_oslab.Threads.Matrix.Sums.{
  dot-next, dot-none, upto, upto-column, upto-element, upto-others, upto-row,
}

abbrev reached : (b : Bounds) → LoopPc → (p q : ℕ) → ℕ
reached b (for_i i) p q = upto b i 0 b.inner_from p q
reached b (for_j i j) p q = upto b i j b.inner_from p q
reached b (for_k i j k) p q = upto b i j k p q
reached b (load_z i j k) p q = upto b i j k p q
reached b (store_z i j k value) p q = upto b i j k p q

-- What a thread has added to an element.
abbrev pub part : (b : Bounds) (x y : Matrix) → LoopPc → (p q : ℕ) → ℕ
part b x y t p q = dot x y p q b.inner_from (reached b t p q)

-- The indices of a thread are inside of its bounds.
abbrev pub Fits : Bounds → LoopPc → Type 0
Fits b (for_i i) = (b.row_from ≤ i) × (i ≤ b.row_to) × (b.inner_from ≤ b.inner_to)
Fits b (for_j i j) = (b.row_from ≤ i) × (i < b.row_to) × (b.inner_from ≤ b.inner_to)
Fits b (for_k i j k) = (b.row_from ≤ i) × (i < b.row_to) × (b.inner_from ≤ k) × (k ≤ b.inner_to)
Fits b (load_z i j k) = (b.row_from ≤ i) × (i < b.row_to) × (b.inner_from ≤ k) × (k < b.inner_to)
Fits b (store_z i j k value) =
    (b.row_from ≤ i) × (i < b.row_to) × (b.inner_from ≤ k) × (k < b.inner_to)

-- The value that a thread has loaded still stands.
abbrev pub Loaded : LoopPc → Matrix → Type 0
Loaded (for_i i) z = Unit
Loaded (for_j i j) z = Unit
Loaded (for_k i j k) z = Unit
Loaded (load_z i j k) z = Unit
Loaded (store_z i j k value) z = value ≡ z i j

abbrev times : (n cost : ℕ) → ℕ
times zero cost = 0
times (suc n) cost = cost + times n cost

times-next : (i to cost : ℕ) → i < to → times (to - i) cost ≡ cost + times (to - (i + 1)) cost
times-next i to cost h =
    let e : to - i ≡ suc (to - (i + 1)) = omega arith in ap (λ n. times n cost) e

times-none : (i to cost : ℕ) → to ≤ i → times (to - i) cost ≡ 0
times-none i to cost h = let e : to - i ≡ 0 = omega arith in ap (λ n. times n cost) e

-- The actions for one element, and for one row.
abbrev element_cost : Bounds → ℕ
element_cost b = 3 * (b.inner_to - b.inner_from) + 2

abbrev row_cost : Bounds → ℕ
row_cost b = times b.matrix_col_y (element_cost b) + 2

-- The actions that a thread has left.
abbrev pub rank : Bounds → LoopPc → ℕ
rank b (for_i i) = times (b.row_to - i) (row_cost b)
rank b (for_j i j) =
    times (b.row_to - (i + 1)) (row_cost b) + times (b.matrix_col_y - j) (element_cost b) + 1
rank b (for_k i j k) =
    times (b.row_to - (i + 1)) (row_cost b)
    + times (b.matrix_col_y - (j + 1)) (element_cost b)
    + 3 * (b.inner_to - k)
    + 2
rank b (load_z i j k) =
    times (b.row_to - (i + 1)) (row_cost b)
    + times (b.matrix_col_y - (j + 1)) (element_cost b)
    + 3 * (b.inner_to - k)
    + 1
rank b (store_z i j k value) =
    times (b.row_to - (i + 1)) (row_cost b)
    + times (b.matrix_col_y - (j + 1)) (element_cost b)
    + 3 * (b.inner_to - k)

-- One action from t and z to t' and z'.
pub record Moves (b : Bounds) (x y : Matrix) (t : LoopPc) (z : Matrix) (t' : LoopPc) (z' : Matrix)
    : Type 0 where
  pub fits : Fits b t'
  pub loaded : Loaded t' z'
  pub adds :
      (p q c : ℕ)
      → q < b.matrix_col_y
      → z p q ≡ (c + part b x y t p q) % 2 ^ 32
      → z' p q ≡ (c + part b x y t' p q) % 2 ^ 32
  pub less : rank b t' < rank b t
  pub rows : (p q : ℕ) → (p < b.row_from) ⊎ (b.row_to ≤ p) → z' p q ≡ z p q

abbrev pub Goes : (b : Bounds) (x y : Matrix) → LoopPc → Matrix → Option (LoopPc × Matrix) → Type 0
Goes b x y t z none = t ≡ for_i b.row_to
Goes b x y t z (some (t', z')) = Moves b x y t z t' z'

module _ (b : Bounds) (x y : Matrix) where
  for_i-Goes :
      (i : ℕ) (z : Matrix)
      → Fits b (for_i i)
      → Goes b x y (for_i i) z (if ltb i b.row_to then some (for_j i 0, z) else none)
  for_i-Goes i z h = elim (Bool-cases (ltb i b.row_to)) [
    | inl e ↦
        let all : b.matrix_col_y - 0 ≡ b.matrix_col_y = omega arith in
        rw e (record {
          fits = (h.0, ltb→lt i b.row_to e, h.2);
          loaded = tt;
          adds = λ p q c g e. e;
          less = omega (
            arith,
            times-next i b.row_to (row_cost b) (ltb→lt i b.row_to e),
            ap (λ n. times n (element_cost b)) all,
          );
          rows = λ p q o. refl;
        })
    | inr e ↦ rw e (ap for_i (ground (arith, h.1)))
  ]

  for_j-Moves :
      (i j : ℕ) (z : Matrix)
      → Fits b (for_j i j)
      → Moves b x y
          (for_j i j)
          z
          (if ltb j b.matrix_col_y then for_k i j b.inner_from else for_i (i + 1))
          z
  for_j-Moves i j z h = elim (Bool-cases (ltb j b.matrix_col_y)) [
    | inl e ↦ rw e (record {
      fits = (h.0, h.1, omega arith, h.2);
      loaded = tt;
      adds = λ p q c g e. e;
      less =
          omega (arith, times-next j b.matrix_col_y (element_cost b) (ltb→lt j b.matrix_col_y e));
      rows = λ p q o. refl;
    })
    | inr e ↦
        let stop : b.matrix_col_y ≤ j = ground arith in
        rw e (record {
          fits = (omega (arith, h.0), omega (arith, h.1), h.2);
          loaded = tt;
          adds = λ p q c g e.
              e
              ∙ ap (λ u. (c + dot x y p q b.inner_from u) % 2 ^ 32) (upto-row b i j p q h.0 g stop);
          less = omega arith;
          rows = λ p q o. refl;
        })
  ]

  for_k-Moves :
      (i j k : ℕ) (z : Matrix)
      → Fits b (for_k i j k)
      → Moves b x y (for_k i j k) z (if ltb k b.inner_to then load_z i j k else for_j i (j + 1)) z
  for_k-Moves i j k z h = elim (Bool-cases (ltb k b.inner_to)) [
    | inl e ↦ rw e (record {
      fits = (h.0, h.1, h.2, ltb→lt k b.inner_to e);
      loaded = tt;
      adds = λ p q c g e. e;
      less = omega (arith, ltb→lt k b.inner_to e);
      rows = λ p q o. refl;
    })
    | inr e ↦
        let stop : k ≡ b.inner_to = ground (arith, h.3) in
        rw e (record {
          fits = (h.0, h.1, omega (arith, h.2, h.3));
          loaded = tt;
          adds = λ p q c g e.
              e
              ∙ ap (λ u. (c + dot x y p q b.inner_from u) % 2 ^ 32)
                  (ap (λ n. upto b i j n p q) stop ∙ upto-column b i j p q h.0);
          less = omega (arith, stop);
          rows = λ p q o. refl;
        })
  ]

  dot-element :
      (i j k p q : ℕ)
      → b.row_from ≤ i
      → (p == i && q == j) ≡ true
      → dot x y p q b.inner_from (upto b i j k p q) ≡ dot x y i j b.inner_from k
  dot-element i j k p q h t =
      let row : p ≡ i = ground arith in
      let column : q ≡ j = ground arith in
      rw (row, column) (ap (dot x y i j b.inner_from) (upto-element b i j k h))

  store_z-adds :
      (i j k value : ℕ) (z : Matrix) (p q c : ℕ)
      → Fits b (store_z i j k value)
      → value ≡ z i j
      → z p q ≡ (c + dot x y p q b.inner_from (upto b i j k p q)) % 2 ^ 32
      → set_element z i j (add32 value (mul32 (x i k) (y k j))) p q
        ≡ (c + dot x y p q b.inner_from (upto b i j (k + 1) p q)) % 2 ^ 32
  store_z-adds i j k value z p q c h l e = elim (Bool-cases (p == i && q == j)) [
    | inl t ↦
        let row : p ≡ i = ground arith in
        let column : q ≡ j = ground arith in
        let same : z p q ≡ z i j = rw (row, column) refl in
        let before = dot-element i j k p q h.0 t in
        let count : k + 1 ≡ suc k = omega arith in
        let after = dot-element i j (k + 1) p q h.0 t ∙ ap (dot x y i j b.inner_from) count in
        let next = dot-next x y i j b.inner_from k h.2 in
        let sum : add32 value (mul32 (x i k) (y k j))
            ≡ (c + dot x y i j b.inner_from (suc k)) % 2 ^ 32 =
          omega (arith, l, e, same, before, next) in
        rw t (sum ∙ ap (λ n. (c + n) % 2 ^ 32) (sym after))
    | inr t ↦ rw t (
        e ∙ ap (λ u. (c + dot x y p q b.inner_from u) % 2 ^ 32) (upto-others b i j k (k + 1) p q t))
  ]

  store_z-Moves :
      (i j k value : ℕ) (z : Matrix)
      → Fits b (store_z i j k value)
      → value ≡ z i j
      → Moves b x y
          (store_z i j k value)
          z
          (for_k i j (k + 1))
          (set_element z i j (add32 value (mul32 (x i k) (y k j))))
  store_z-Moves i j k value z h l = record {
    fits = (h.0, h.1, omega (arith, h.2), omega (arith, h.3));
    loaded = tt;
    adds = λ p q c g e. store_z-adds i j k value z p q c h l e;
    less = omega (arith, h.3);
    rows = λ p q o. ground (arith, h.0, h.1);
  }

  pub loop-Goes :
      (t : LoopPc) (z : Matrix) → Fits b t → Loaded t z → Goes b x y t z (loop b x y t z)
  unfolding loop
  loop-Goes (for_i i) z h l = for_i-Goes i z h
  loop-Goes (for_j i j) z h l = for_j-Moves i j z h
  loop-Goes (for_k i j k) z h l = for_k-Moves i j k z h
  loop-Goes (load_z i j k) z h l = record {
    fits = h;
    loaded = refl;
    adds = λ p q c g e. e;
    less = omega arith;
    rows = λ p q o. refl;
  }
  loop-Goes (store_z i j k value) z h l = store_z-Moves i j k value z h l

pub part-start : (b : Bounds) (x y : Matrix) (p q : ℕ) → part b x y (for_i b.row_from) p q ≡ 0
part-start b x y p q =
    let e : upto b b.row_from 0 b.inner_from p q ≡ b.inner_from = ground arith in
    ap (dot x y p q b.inner_from) e ∙ dot-none x y p q b.inner_from b.inner_from (omega arith)

-- Behind the loops, a thread has added its sum to each element of its rows, and to no other.
pub part-end :
    (b : Bounds) (x y : Matrix) (p q : ℕ)
    → b.row_from ≤ p
    → p < b.row_to
    → part b x y (for_i b.row_to) p q ≡ dot x y p q b.inner_from b.inner_to
part-end b x y p q h g =
    let e : upto b b.row_to 0 b.inner_from p q ≡ b.inner_to = ground arith in
    ap (dot x y p q b.inner_from) e

pub part-end-apart :
    (b : Bounds) (x y : Matrix) (p q : ℕ)
    → (p < b.row_from) ⊎ (b.row_to ≤ p)
    → part b x y (for_i b.row_to) p q ≡ 0
part-end-apart b x y p q o =
    let e : upto b b.row_to 0 b.inner_from p q ≡ b.inner_from = ground arith in
    ap (dot x y p q b.inner_from) e ∙ dot-none x y p q b.inner_from b.inner_from (omega arith)
