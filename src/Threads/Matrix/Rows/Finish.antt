-- ===== src/Threads/Matrix/Rows/Finish.antt =====
-- Lab3/3/3_1/3_1.c and Lab3/3/3_2/3_2.c: the loops of both threads end.
use fall_oslab.Base.{ℕ, ◌+◌, ◌^◌, ◌<◌, ◌≡◌, ◌⊎◌, inl, inr, Option-cases, add32}
use mathlib.Core.Path.{subst}
use fall_oslab.Threads.Steps.{Run, append, finish, less_left, less_right}
use fall_oslab.Threads.Matrix.{Matrix, matrix_row_x, loop, product}
use fall_oslab.Threads.Matrix.Loop.{rank, Moves, Goes, loop-Goes}
use fall_oslab.Threads.Matrix.Inv.{Inv}
use fall_oslab.Threads.Matrix.Rows.{
  bounds1, bounds2, Process, Step, by_thread1, by_thread2, created, Step-Inv, Run-Inv, Ended,
  rows_product,
}

module _ (matrix_col_y : ℕ) (x y z0 : Matrix) where
  -- The actions that both threads have left.
  abbrev left : Process → ℕ
  left w = rank (bounds1 matrix_col_y) w.t1 + rank (bounds2 matrix_col_y) w.t2

  abbrev Good : Process → Type 0
  Good w = Inv x y z0 (bounds1 matrix_col_y) (bounds2 matrix_col_y) w.t1 w.t2 w.z

  progress :
      (w : Process)
      → Good w
      → ((w' : Process) × Step matrix_col_y x y w w' × Good w' × (left w' < left w))
        ⊎ Ended matrix_col_y x y w
  progress w v = elim (Option-cases (loop (bounds1 matrix_col_y) x y w.t1 w.z)) [
    | inr (q, e) ↦
        let moves : Moves (bounds1 matrix_col_y) x y w.t1 w.z q.0 q.1 =
          subst (Goes (bounds1 matrix_col_y) x y w.t1 w.z) e
            (loop-Goes (bounds1 matrix_col_y) x y w.t1 w.z v.fits v.loaded) in
        let step = by_thread1 q.0 q.1 e in
        inl (_, step, Step-Inv matrix_col_y x y z0 step v, less_left _ moves.less)
    | inl e ↦ elim (Option-cases (loop (bounds2 matrix_col_y) x y w.t2 w.z)) [
      | inr (q, f) ↦
          let moves : Moves (bounds2 matrix_col_y) x y w.t2 w.z q.0 q.1 =
            subst (Goes (bounds2 matrix_col_y) x y w.t2 w.z) f
              (loop-Goes (bounds2 matrix_col_y) x y w.t2 w.z v.fits2 v.loaded2) in
          let step = by_thread2 q.0 q.1 f in
          inl (_, step, Step-Inv matrix_col_y x y z0 step v, less_right _ moves.less)
      | inl f ↦ inr (e, f)
    ]
  ]

  -- From every state that the two threads reach, in any order of their loads and stores, they go on
  -- to the ends of their loops, and each element is its first value and the element of the product
  -- there, as 32 bits. The first values are any ints.
  pub rows_finish :
      {w : Process}
      → ((p q : ℕ) → z0 p q < 2 ^ 32)
      → Run (Step matrix_col_y x y) (created z0) w
      → (w' : Process) × Run (Step matrix_col_y x y) w w'
        × Ended matrix_col_y x y w'
        × ((p q : ℕ)
            → p < matrix_row_x
            → q < matrix_col_y
            → w'.z p q ≡ add32 (z0 p q) (product x y p q))
  rows_finish {w} ints run =
      let (w', more, ended) =
        finish left Good (Ended matrix_col_y x y) progress w
          (Run-Inv matrix_col_y x y z0 ints run) in
      (w', more, ended, rows_product matrix_col_y x y z0 ints (append run more) ended)
