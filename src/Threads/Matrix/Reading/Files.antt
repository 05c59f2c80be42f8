-- ===== src/Threads/Matrix/Reading/Files.antt =====
-- Lab3/2/2_1.c: the program from the numbers in its files to those that it writes.
use mathlib.Core.Path.{subst}
use fall_oslab.Base.{
  ℕ, zero, suc, ◌+◌, ◌*◌, ◌%◌, ◌^◌, ◌≤◌, ◌<◌, ◌≡◌, refl, sym, ap, ◌∙◌, List, [], ◌∷◌, Bool, true,
  false, arith, length, get_or, drop, ◌⊎◌, inl, inr,
}
use fall_oslab.Threads.Matrix.{Matrix, matrix_row_x, matrix_row_y, dot, product}
use fall_oslab.Threads.Matrix.Single.{write_rows, lines_loop-write_rows}
use fall_oslab.Threads.Matrix.Reading.{
  Scanner, matrix_col_x, matrix_col_y, read_matrix, skip_sizes, data_processing, single_main,
}
use fall_oslab.Threads.Matrix.Reading.Rows.{IsScanner, get_or-drop}
use fall_oslab.Threads.Matrix.Reading.Matrices.{
  length-drop, drop-drop, AllRead, read_matrix-AllRead,
}

-- The element of a matrix with `cols` columns in a file of numbers, behind the two sizes; `given` is
-- taken if the file is too short.
abbrev pub number_at : (ns : List ℕ) (cols : ℕ) (given : Matrix) → Matrix
number_at ns cols given i j = get_or ns (2 + (i * cols + j)) (given i j)

module _ {File : Type 0} (scanner : Scanner File) (law : IsScanner scanner) where
  skip_one : (ns : List ℕ) → (scanner.fscanf (law.numbers ns)).1 ≡ law.numbers (drop 1 ns)
  skip_one [] = ap (λ r. r.1) law.scan_end
  skip_one (value ∷ ns) = ap (λ r. r.1) (law.scan_next value ns)

  skip_sizes-numbers : (ns : List ℕ) → skip_sizes scanner (law.numbers ns) ≡ law.numbers (drop 2 ns)
  unfolding skip_sizes
  skip_sizes-numbers ns =
      ap (λ f. (scanner.fscanf f).1) (skip_one ns)
      ∙ skip_one (drop 1 ns)
      ∙ ap law.numbers (drop-drop 1 1 ns)

  -- What one file comes to.
  FileRead : (ns : List ℕ) (cols rows : ℕ) (m : Matrix) → Bool × File × Matrix → Type 0
  FileRead ns cols rows m r =
      (((2 + rows * cols ≤ length ns) × (r.0 ≡ true))
        ⊎ ((length ns < 2 + rows * cols) × (r.0 ≡ false)))
      × ((i j : ℕ) → i < rows → j < cols → r.2 i j ≡ number_at ns cols m i j)

  read_file-FileRead :
      (ns : List ℕ) (cols rows : ℕ) (m : Matrix)
      → 1 ≤ rows * cols
      → FileRead ns cols rows m
          (read_matrix scanner cols rows 0 (skip_sizes scanner (law.numbers ns)) m)
  unfolding FileRead AllRead
  read_file-FileRead ns cols rows m some_elements =
      let r = read_matrix scanner cols rows 0 (law.numbers (drop 2 ns)) m in
      let (ended, read) = read_matrix-AllRead scanner law cols (drop 2 ns) rows 0 m in
      rw (skip_sizes-numbers ns) (
        elim ended [
          | inl (h, e, f) ↦ inl (omega (arith, length-drop 2 ns), e)
          | inr (h, e) ↦ inr (omega (arith, length-drop 2 ns), e)
        ],
        λ i j h k.
            let g : 0 + i ≡ i = omega arith in
            subst (λ p. r.2 p j ≡ get_or (drop 2 ns) (i * cols + j) (m p j)) g (read.inside i j h k)
            ∙ get_or-drop 2 ns (i * cols + j) (m i j),
      )

  -- data_processing on two files of numbers. Each element of x is the number at its place in the first
  -- file, behind two others, or is left as it was if the file has no such number. If the first file
  -- has numbers for the whole of x, the same goes for y and the second file, and the function
  -- succeeds if both have enough; if not, y stays as a whole, and the message is printed.
  pub data_processing_lem :
      (ns1 ns2 : List ℕ) (x y : Matrix)
      → let r = data_processing scanner (law.numbers ns1) (law.numbers ns2) x y in
        ((i k : ℕ)
          → i < matrix_row_x
          → k < matrix_col_x
          → r.x i k ≡ number_at ns1 matrix_col_x x i k)
        × ((2 + matrix_row_x * matrix_col_x ≤ length ns1)
              × ((k j : ℕ)
                  → k < matrix_row_y
                  → j < matrix_col_y
                  → r.y k j ≡ number_at ns2 matrix_col_y y k j)
              × (((2 + matrix_row_y * matrix_col_y ≤ length ns2) × (r.complete ≡ true))
                  ⊎ ((length ns2 < 2 + matrix_row_y * matrix_col_y) × (r.complete ≡ false)))
            ⊎ (length ns1 < 2 + matrix_row_x * matrix_col_x) × (r.y ≡ y) × (r.complete ≡ false))
  unfolding data_processing FileRead
  data_processing_lem ns1 ns2 x y =
      let (ended1, read1) = read_file-FileRead ns1 matrix_col_x matrix_row_x x (omega arith) in
      let (ended2, read2) = read_file-FileRead ns2 matrix_col_y matrix_row_y y (omega arith) in
      elim ended1 [
        | inl (h, e) ↦ rw (data_processing, e) (read1, inl (h, read2, ended2))
        | inr (h, e) ↦ rw (data_processing, e) (read1, inr (h, refl, refl))
      ]

get_or_within : (ns : List ℕ) (i d e : ℕ) → i < length ns → get_or ns i d ≡ get_or ns i e
get_or_within [] i d e h = absurd (omega arith)
get_or_within (x ∷ ns) zero d e h = refl
get_or_within (x ∷ ns) (suc i) d e h = get_or_within ns i d e (omega arith)

-- A sum of products reads the elements below its bound only.
dot_agree :
    (x y x' y' : Matrix) (i j n : ℕ)
    → ((k : ℕ) → k < n → x i k ≡ x' i k)
    → ((k : ℕ) → k < n → y k j ≡ y' k j)
    → dot x y i j 0 n ≡ dot x' y' i j 0 n
dot_agree x y x' y' i j zero h g = refl
dot_agree x y x' y' i j (suc n) h g =
    let rest = dot_agree x y x' y' i j n (λ k l. h k (omega arith)) (λ k l. g k (omega arith)) in
    rw (dot, rest, h n (omega arith), g n (omega arith)) refl

module _ {File : Type 0} (scanner : Scanner File) (law : IsScanner scanner) where
  -- The program of one thread, on two files of numbers that each have two sizes and all elements of
  -- their matrix, and with any contents of the memory from malloc: it writes the sizes 1234 and 4, and
  -- then the product of the matrices in the files, row by row, as 32 bits.
  pub single_main_lem :
      (ns1 ns2 : List ℕ) (x y : Matrix)
      → 2 + matrix_row_x * matrix_col_x ≤ length ns1
      → 2 + matrix_row_y * matrix_col_y ≤ length ns2
      → let x' = number_at ns1 matrix_col_x (λ i k. 0) in
        let y' = number_at ns2 matrix_col_y (λ k j. 0) in
        single_main scanner (law.numbers ns1) (law.numbers ns2) x y
        ≡ (matrix_row_x ∷ matrix_col_y ∷ []) ∷ write_rows (product x' y') matrix_row_x 0
  unfolding single_main
  single_main_lem ns1 ns2 x y h g =
      let x' = number_at ns1 matrix_col_x (λ i k. 0) in
      let y' = number_at ns2 matrix_col_y (λ k j. 0) in
      let r = data_processing scanner (law.numbers ns1) (law.numbers ns2) x y in
      let (read1, more) = data_processing_lem scanner law ns1 ns2 x y in
      elim more [
        | inr (short, _, _) ↦ absurd (omega arith)
        | inl (_, read2, _) ↦
            ap (λ rows. (matrix_row_x ∷ matrix_col_y ∷ []) ∷ rows)
              (sym (
                lines_loop-write_rows r.x r.y (product x' y') matrix_row_x 0 (λ p q a b.
                  ap (λ n. n % 2 ^ 32)
                    (dot_agree x' y' r.x r.y p q matrix_row_y
                      (λ k c.
                        get_or_within ns1 (2 + (p * matrix_col_x + k)) 0 (x p k) (omega arith)
                        ∙ sym (read1 p k (omega arith) c))
                      (λ k c.
                        get_or_within ns2 (2 + (k * matrix_col_y + q)) 0 (y k q) (omega arith)
                        ∙ sym (read2 k q c b))))))
      ]
