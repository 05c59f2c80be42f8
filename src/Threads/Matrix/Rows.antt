-- ===== src/Threads/Matrix/Rows.antt =====
-- Lab3/3/3_1/3_1.c and Lab3/3/3_2/3_2.c: two threads without a lock, each on half of the rows.
pub mod Finish
use mathlib.Core.Path.{subst}
use fall_oslab.Base.{
  ℕ, zero, suc, ◌+◌, ◌*◌, ◌/◌, ◌%◌, ◌^◌, ◌≤◌, ◌<◌, ◌≡◌, refl, sym, ap, ◌∙◌, Option, none, some,
  Bool, true, false, arith, ltb, ◌⊎◌, inl, inr, add32, Bool-cases, Option-cases, ltb→lt,
}
use fall_oslab.Threads.Steps.{Run, here, next}
use fall_oslab.Threads.Matrix.{
  Matrix, matrix_row_x, matrix_row_y, Bounds, LoopPc, for_i, for_j, for_k, load_z, store_z, loop,
  dot, product,
}
use fall_oslab.Threads.Matrix.Loop.{
  part, Fits, Loaded, rank, Moves, Goes, loop-Goes, part-end, part-end-apart,
}
use fall_oslab.Threads.Matrix.Inv.{Inv, Inv-start, Inv-swap, Moves-Inv, ended_element}

-- The loops of thread1 and of thread2.
abbrev pub bounds1 : (matrix_col_y : ℕ) → Bounds
bounds1 matrix_col_y = record {
  row_from = 0;
  row_to = matrix_row_x / 2;
  matrix_col_y = matrix_col_y;
  inner_from = 0;
  inner_to = matrix_row_y;
}

abbrev pub bounds2 : (matrix_col_y : ℕ) → Bounds
bounds2 matrix_col_y = record {
  row_from = matrix_row_x / 2;
  row_to = matrix_row_x;
  matrix_col_y = matrix_col_y;
  inner_from = 0;
  inner_to = matrix_row_y;
}

pub record Process : Type 0 where
  pub t1 : LoopPc
  pub t2 : LoopPc
  pub z : Matrix

-- The threads interleave in any order.
pub data Step (matrix_col_y : ℕ) (x y : Matrix) (w : Process) : Process → Type 0 where
  by_thread1 :
      (t : LoopPc) (z : Matrix)
      → loop (bounds1 matrix_col_y) x y w.t1 w.z ≡ some (t, z)
      → Step matrix_col_y x y w (record { t1 = t; t2 = w.t2; z = z })
  by_thread2 :
      (t : LoopPc) (z : Matrix)
      → loop (bounds2 matrix_col_y) x y w.t2 w.z ≡ some (t, z)
      → Step matrix_col_y x y w (record { t1 = w.t1; t2 = t; z = z })

-- The process when main has created both threads; z is as malloc gave it.
abbrev pub created : Matrix → Process
created z = record { t1 = for_i 0; t2 = for_i (matrix_row_x / 2); z = z }

-- A thread's loaded value stands while the rows of its bounds do.
Loaded-rows :
    (d : Bounds) (u : LoopPc) (z z' : Matrix)
    → Fits d u
    → ((p q : ℕ) → d.row_from ≤ p → p < d.row_to → z' p q ≡ z p q)
    → Loaded u z
    → Loaded u z'
Loaded-rows d (for_i i) z z' h e l = tt
Loaded-rows d (for_j i j) z z' h e l = tt
Loaded-rows d (for_k i j k) z z' h e l = tt
Loaded-rows d (load_z i j k) z z' h e l = tt
Loaded-rows d (store_z i j k value) z z' h e l = l ∙ sym (e i j h.0 h.1)

-- Bounds with the same columns, and no row in common.
abbrev Apart : Bounds → Bounds → Type 0
Apart b d = (b.matrix_col_y ≡ d.matrix_col_y) × ((b.row_to ≤ d.row_from) ⊎ (d.row_to ≤ b.row_from))

abbrev Keeps : (x y z0 : Matrix) (b d : Bounds) (u : LoopPc) → Option (LoopPc × Matrix) → Type 0
Keeps x y z0 b d u none = Unit
Keeps x y z0 b d u (some (t, z)) = Inv x y z0 b d t u z

Goes-Keeps :
    (x y z0 : Matrix) (b d : Bounds) (t u : LoopPc) (z : Matrix) (o : Option (LoopPc × Matrix))
    → Apart b d
    → Inv x y z0 b d t u z
    → Goes b x y t z o
    → Keeps x y z0 b d u o
Goes-Keeps x y z0 b d t u z none apart v g = tt
Goes-Keeps x y z0 b d t u z (some (t', z')) apart v g = Moves-Inv x y z0 b d t u z t' z' g v (
    Loaded-rows d u z z' v.fits2
      (λ p q h k.
        g.rows p q (elim (apart.1) [ inl e ↦ inr (omega arith) | inr e ↦ inl (omega arith) ]))
      v.loaded2)

add-zero : {a b d : ℕ} → a ≡ 0 → b ≡ d → a + b ≡ d
add-zero e f = omega arith

add_comm-zero : {a b d : ℕ} → a ≡ d → b ≡ 0 → a + b ≡ d
add_comm-zero e f = omega arith

module _ (matrix_col_y : ℕ) (x y : Matrix) where
  abbrev pub b1 : Bounds
  b1 = bounds1 matrix_col_y

  abbrev pub b2 : Bounds
  b2 = bounds2 matrix_col_y

  pub Step-Inv :
      (z0 : Matrix) {w w' : Process}
      → Step matrix_col_y x y w w'
      → Inv x y z0 b1 b2 w.t1 w.t2 w.z
      → Inv x y z0 b1 b2 w'.t1 w'.t2 w'.z
  Step-Inv z0 {w} (by_thread1 t z e) v = subst (Keeps x y z0 b1 b2 w.t2) e (
      Goes-Keeps x y z0 b1 b2 w.t1 w.t2 w.z (loop b1 x y w.t1 w.z) (refl, inl (omega arith)) v
        (loop-Goes b1 x y w.t1 w.z v.fits v.loaded))
  Step-Inv z0 {w} (by_thread2 t z e) v = Inv-swap x y z0 b2 b1 t w.t1 z refl (
      subst (Keeps x y z0 b2 b1 w.t1) e (
        Goes-Keeps x y z0 b2 b1 w.t2 w.t1 w.z (loop b2 x y w.t2 w.z) (refl, inr (omega arith))
          (Inv-swap x y z0 b1 b2 w.t1 w.t2 w.z refl v)
          (loop-Goes b2 x y w.t2 w.z v.fits2 v.loaded2)))

  pub Run-Inv :
      (z0 : Matrix) {w : Process}
      → ((p q : ℕ) → z0 p q < 2 ^ 32)
      → Run (Step matrix_col_y x y) (created z0) w
      → Inv x y z0 b1 b2 w.t1 w.t2 w.z
  Run-Inv z0 h here = Inv-start x y z0 b1 b2 h (omega arith, omega arith) (omega arith, omega arith)
  Run-Inv z0 h (next run st) = Step-Inv z0 st (Run-Inv z0 h run)

  -- Both threads are behind their loops.
  abbrev pub Ended : Process → Type 0
  Ended w = (loop b1 x y w.t1 w.z ≡ none) × (loop b2 x y w.t2 w.z ≡ none)

  ended_parts :
      (p q : ℕ)
      → p < matrix_row_x
      → part b2 x y (for_i matrix_row_x) p q + part b1 x y (for_i (matrix_row_x / 2)) p q
        ≡ dot x y p q 0 matrix_row_y
  ended_parts p q h = elim (Bool-cases (ltb p (matrix_row_x / 2))) [
    | inl e ↦
        let first = ltb→lt p (matrix_row_x / 2) e in
        add-zero (part-end-apart b2 x y p q (inl first)) (part-end b1 x y p q (omega arith) first)
    | inr e ↦
        let second : matrix_row_x / 2 ≤ p = ground arith in
        add_comm-zero (part-end b2 x y p q second h) (part-end-apart b1 x y p q (inr second))
  ]

  pub Inv-product :
      (z0 : Matrix) {w : Process}
      → Inv x y z0 b1 b2 w.t1 w.t2 w.z
      → w.t1 ≡ for_i (matrix_row_x / 2)
      → w.t2 ≡ for_i matrix_row_x
      → (p q : ℕ) → p < matrix_row_x
      → q < matrix_col_y
      → w.z p q ≡ add32 (z0 p q) (product x y p q)
  Inv-product z0 v end1 end2 p q g k =
      ended_element (z0 p q) (v.total p q k) (ap (λ t. part b1 x y t p q) end1)
        (ap (λ t. part b2 x y t p q) end2) (ended_parts p q g)

  -- When both threads are behind their loops, in whatever order their loads and stores ran, each
  -- element is its first value and the element of the product, as 32 bits, although the threads take
  -- no lock. The first values are what malloc gave: any ints.
  pub rows_product :
      (z0 : Matrix) {w : Process}
      → ((p q : ℕ) → z0 p q < 2 ^ 32)
      → Run (Step matrix_col_y x y) (created z0) w
      → Ended w
      → (p q : ℕ) → p < matrix_row_x
      → q < matrix_col_y
      → w.z p q ≡ add32 (z0 p q) (product x y p q)
  rows_product z0 {w} h run e p q g k =
      let v = Run-Inv z0 h run in
      let end1 : w.t1 ≡ for_i (matrix_row_x / 2) =
        subst (Goes b1 x y w.t1 w.z) (e.0) (loop-Goes b1 x y w.t1 w.z v.fits v.loaded) in
      let end2 : w.t2 ≡ for_i matrix_row_x =
        subst (Goes b2 x y w.t2 w.z) (e.1) (loop-Goes b2 x y w.t2 w.z v.fits2 v.loaded2) in
      Inv-product z0 v end1 end2 p q g k
