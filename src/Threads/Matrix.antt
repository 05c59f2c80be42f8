-- ===== src/Threads/Matrix.antt =====
-- Lab3/2/2_2.c, Lab3/3/3_1/3_1.c and Lab3/3/3_2/3_2.c: the loops that add up a product of matrices.
pub mod Sums
pub mod Loop
pub mod Inv
pub mod Rows
pub mod Locked
pub mod Single
pub mod Reading
use fall_oslab.Base.{
  ℕ, zero, suc, ◌+◌, ◌*◌, ◌%◌, ◌^◌, ◌/◌, ◌≡◌, Option, none, some, Bool, true, false, ltb, leb, ◌==◌,
  ◌&&◌, if◌then◌else◌, add32, mul32,
}

-- The elements of a matrix, an int as its 32 bits.
abbrev pub Matrix : Type 0
Matrix = ℕ → ℕ → ℕ

-- matrix_row_x and matrix_row_y
abbrev pub matrix_row_x : ℕ
matrix_row_x = 1234

abbrev pub matrix_row_y : ℕ
matrix_row_y = 250

-- The bounds of the loops over i, j and k: matrix_col_y differs between the programs.
pub record Bounds : Type 0 where
  pub row_from : ℕ
  pub row_to : ℕ
  pub matrix_col_y : ℕ
  pub inner_from : ℕ
  pub inner_to : ℕ

-- Where a thread stands in the loops: at their tests, or at the load and the store of
-- z[i][j] += x[i][k] * y[k][j].
pub data LoopPc : Type 0 where
  for_i : (i : ℕ) → LoopPc
  for_j : (i j : ℕ) → LoopPc
  for_k : (i j k : ℕ) → LoopPc
  load_z : (i j k : ℕ) → LoopPc
  store_z : (i j k value : ℕ) → LoopPc

-- z[i][j] = value
abbrev pub set_element : Matrix → ℕ → ℕ → ℕ → Matrix
set_element z i j value p q = if p == i && q == j then value else z p q

-- The next action in the loops; `none` behind them.
unfoldable pub loop : (b : Bounds) (x y : Matrix) → LoopPc → Matrix → Option (LoopPc × Matrix)
loop b x y (for_i i) z = if ltb i b.row_to then some (for_j i 0, z) else none
loop b x y (for_j i j) z =
    some (if ltb j b.matrix_col_y then for_k i j b.inner_from else for_i (i + 1), z)
loop b x y (for_k i j k) z = some (if ltb k b.inner_to then load_z i j k else for_j i (j + 1), z)
loop b x y (load_z i j k) z = some (store_z i j k (z i j), z)
loop b x y (store_z i j k value) z =
    some (for_k i j (k + 1), set_element z i j (add32 value (mul32 (x i k) (y k j))))

-- The sum of x[i][k] * y[k][j] over the k from one bound to another.
abbrev pub dot : (x y : Matrix) → (i j from to : ℕ) → ℕ
dot x y i j from zero = 0
dot x y i j from (suc k) =
    let rest = dot x y i j from k in if leb from k then rest + x i k * y k j else 0

-- The element at i and j of the product, an int as its 32 bits.
abbrev pub product : (x y : Matrix) → (i j : ℕ) → ℕ
product x y i j = dot x y i j 0 matrix_row_y % 2 ^ 32
