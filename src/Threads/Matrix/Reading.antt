-- ===== src/Threads/Matrix/Reading.antt =====
-- Lab3/2/2_1.c: the files of the matrices, and main.
pub mod Rows
pub mod Matrices
pub mod Files
mod Tests
use fall_oslab.Base.{ℕ, zero, suc, ◌+◌, List, [], ◌∷◌, Option, none, some, Bool, true, false}
use fall_oslab.Threads.Matrix.{Matrix, matrix_row_x, matrix_row_y, set_element}
use fall_oslab.Threads.Matrix.Single.{single_thread}

-- matrix_col_x and matrix_col_y
abbrev pub matrix_col_x : ℕ
matrix_col_x = 250

abbrev pub matrix_col_y : ℕ
matrix_col_y = 4

-- fscanf of "%d" on an open file: the int that it stores, if it returns 1.
pub record Scanner (File : Type 0) : Type 0 where
  pub fscanf : File → Option ℕ × File

module _ {File : Type 0} (scanner : Scanner File) where
  -- The loop over j, with n rounds left: whether it comes to its end, the file and the matrix.
  unfoldable pub read_row : (i n j : ℕ) → File → Matrix → Bool × File × Matrix
  read_row i zero j file m = (true, file, m)
  read_row i (suc n) j file m =
      let (scanned, file') = scanner.fscanf file in
      elim scanned [
        | none ↦ (false, file', m)
        | some value ↦ read_row i n (j + 1) file' (set_element m i j value)
      ]

  -- The loop over i, with n rounds left.
  unfoldable pub read_matrix : (cols n i : ℕ) → File → Matrix → Bool × File × Matrix
  read_matrix cols zero i file m = (true, file, m)
  read_matrix cols (suc n) i file m =
      let (complete, file', m') = read_row i cols 0 file m in
      elim complete [ true ↦ read_matrix cols n (i + 1) file' m' | false ↦ (false, file', m') ]

  -- The two numbers in front of a matrix.
  unfoldable pub skip_sizes : File → File
  skip_sizes file = (scanner.fscanf (scanner.fscanf file).1).1

  -- The matrices; if a file is too short, a message has been printed.
  pub record Inputs : Type 0 where
    pub x : Matrix
    pub y : Matrix
    pub complete : Bool

  unfoldable pub data_processing : (fptr1 fptr2 : File) (x y : Matrix) → Inputs
  data_processing fptr1 fptr2 x y =
      let (complete1, _, x') = read_matrix matrix_col_x matrix_row_x 0 (skip_sizes fptr1) x in
      let (complete2, _, y') = read_matrix matrix_col_y matrix_row_y 0 (skip_sizes fptr2) y in
      elim complete1 [
        | true ↦ record { x = x'; y = y'; complete = complete2 }
        | false ↦ record { x = x'; y = y; complete = false }
      ]

  -- main: the lines of numbers that it writes, for files that open and matrices as malloc gave them.
  unfoldable pub single_main : (fptr1 fptr2 : File) (x y : Matrix) → List (List ℕ)
  single_main fptr1 fptr2 x y =
      let inputs = data_processing fptr1 fptr2 x y in
      (matrix_row_x ∷ matrix_col_y ∷ []) ∷ single_thread inputs.x inputs.y
