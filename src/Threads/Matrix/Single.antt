-- ===== src/Threads/Matrix/Single.antt =====
-- Lab3/2/2_1.c: the product by one thread, a row after the other.
use mathlib.Core.Path.{ap₂}
use fall_oslab.Base.{
  ℕ, zero, suc, ◌+◌, ◌%◌, ◌^◌, ◌<◌, ◌≡◌, refl, sym, ap, ◌∙◌, List, [], ◌∷◌, arith, add32, mul32,
}
use fall_oslab.Threads.Matrix.{Matrix, matrix_row_x, matrix_row_y, dot, product}
use fall_oslab.Threads.Matrix.Sums.{dot-next}
use fall_oslab.Threads.Steps.{Run}
use fall_oslab.Threads.Lock.{SpinLock, IsSpinLock}
use fall_oslab.Threads.Matrix.Locked.{returned, Process, Step, created}
use fall_oslab.Threads.Matrix.Locked.Product.{locked_product}

module _ (x y : Matrix) where
  -- The loop over k, with n rounds left.
  unfoldable pub res_loop : (i j : ℕ) → (n k res : ℕ) → ℕ
  res_loop i j zero k res = res
  res_loop i j (suc n) k res = res_loop i j n (k + 1) (add32 res (mul32 (x i k) (y k j)))

  -- The loop over j, with n rounds left: the numbers of one line of the file.
  unfoldable pub row_loop : (i : ℕ) → (n j : ℕ) → List ℕ
  row_loop i zero j = []
  row_loop i (suc n) j = res_loop i j matrix_row_y 0 0 ∷ row_loop i n (j + 1)

  -- The loop over i, with n rounds left: the lines.
  unfoldable pub lines_loop : (n i : ℕ) → List (List ℕ)
  lines_loop zero i = []
  lines_loop (suc n) i = row_loop i 4 0 ∷ lines_loop n (i + 1)

  -- The lines that the thread writes behind the sizes.
  abbrev pub single_thread : List (List ℕ)
  single_thread = lines_loop matrix_row_x 0

  res_loop_lem :
      (i j n k res : ℕ)
      → res ≡ dot x y i j 0 k % 2 ^ 32
      → res_loop i j n k res ≡ dot x y i j 0 (k + n) % 2 ^ 32
  unfolding res_loop
  res_loop_lem i j zero k res e =
      let h : k ≡ k + 0 = omega arith in e ∙ ap (λ m. dot x y i j 0 m % 2 ^ 32) h
  res_loop_lem i j (suc n) k res e =
      let h : suc k ≡ k + 1 = omega arith in
      let g : (k + 1) + n ≡ k + suc n = omega arith in
      let f : add32 res (mul32 (x i k) (y k j)) ≡ dot x y i j 0 (suc k) % 2 ^ 32 =
        omega (arith, e, dot-next x y i j 0 k (omega arith)) in
      res_loop_lem i j n (k + 1) (add32 res (mul32 (x i k) (y k j)))
        (f ∙ ap (λ m. dot x y i j 0 m % 2 ^ 32) h)
      ∙ ap (λ m. dot x y i j 0 m % 2 ^ 32) g

  res_loop-product : (i j : ℕ) → res_loop i j matrix_row_y 0 0 ≡ product x y i j
  res_loop-product i j = res_loop_lem i j matrix_row_y 0 0 refl

-- The lines that main of 2_2.c writes of z behind the sizes: the loop over j, and the one over i.
unfoldable pub write_row : (z : Matrix) (i : ℕ) → (n j : ℕ) → List ℕ
write_row z i zero j = []
write_row z i (suc n) j = z i j ∷ write_row z i n (j + 1)

unfoldable pub write_rows : (z : Matrix) → (n i : ℕ) → List (List ℕ)
write_rows z zero i = []
write_rows z (suc n) i = write_row z i 4 0 ∷ write_rows z n (i + 1)

zero_element : (d : ℕ) {value : ℕ} → value ≡ add32 0 (d % 2 ^ 32) → value ≡ d % 2 ^ 32
zero_element d e = omega arith

row_loop-write_row :
    (x y z : Matrix) (i n j : ℕ)
    → ((q : ℕ) → q < j + n → z i q ≡ product x y i q)
    → write_row z i n j ≡ row_loop x y i n j
unfolding write_row row_loop
row_loop-write_row x y z i zero j h = refl
row_loop-write_row x y z i (suc n) j h =
    let e : z i j ≡ res_loop x y i j matrix_row_y 0 0 =
      h j (omega arith) ∙ sym (res_loop-product x y i j) in
    ap₂ (λ c cs. c ∷ cs) e (row_loop-write_row x y z i n (j + 1) (λ q g. h q (omega arith)))

pub lines_loop-write_rows :
    (x y z : Matrix) (n i : ℕ)
    → ((p q : ℕ) → p < i + n → q < 4 → z p q ≡ product x y p q)
    → write_rows z n i ≡ lines_loop x y n i
unfolding write_rows lines_loop
lines_loop-write_rows x y z zero i h = refl
lines_loop-write_rows x y z (suc n) i h =
    ap₂ (λ c cs. c ∷ cs) (row_loop-write_row x y z i 4 0 (λ q g. h i q (omega arith) (omega arith)))
      (lines_loop-write_rows x y z n (i + 1) (λ p q g k. h p q (omega arith) k))

-- Both threads of 2_2.c have returned, in whatever order they took the lock, and all elements of z
-- were 0 before: main writes the lines that the one thread of 2_1.c writes for the same matrices.
pub locked-single :
    {L : Type 0} (spin : SpinLock L)
    → IsSpinLock spin
    → (x y : Matrix) {w : Process spin} → Run (Step spin x y) (created spin (λ p q. 0)) w
    → w.t1 ≡ returned
    → w.t2 ≡ returned
    → write_rows w.shared.z matrix_row_x 0 ≡ single_thread x y
locked-single spin law x y {w} run e f =
    lines_loop-write_rows x y w.shared.z matrix_row_x 0 (λ p q g k.
      zero_element (dot x y p q 0 matrix_row_y)
        (locked_product spin law x y (λ p q. 0) (λ p q. omega arith) run e f p q (omega arith) k))
