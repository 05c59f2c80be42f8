-- ===== src/Threads/Matrix/Reading/Tests.antt =====
-- Witnesses for the theorems on Lab3/2/2_1.c and its files.
use fall_oslab.Base.{
  ℕ, zero, suc, ap, List, [], ◌∷◌, length, ◌*◌, ◌⊎◌, ◌+◌, ◌≤◌, ◌<◌, ◌≡◌, refl, Option, none, some,
  true, false, arith,
}
use fall_oslab.Threads.Matrix.{Matrix, matrix_row_x, product}
use fall_oslab.Threads.Matrix.Single.{write_rows}
use fall_oslab.Threads.Matrix.Reading.{Scanner, data_processing, single_main}
use fall_oslab.Threads.Matrix.Reading.Rows.{IsScanner}
use fall_oslab.Threads.Matrix.Reading.Files.{number_at, data_processing_lem, single_main_lem}

-- What malloc gave.
abbrev x : Matrix
x i k = 9

abbrev y : Matrix
y k j = 8

-- A file is the numbers that are left.
abbrev next_number : List ℕ → Option ℕ × List ℕ
next_number [] = (none, [])
next_number (value ∷ ns) = (some value, ns)

abbrev scanner : Scanner (List ℕ)
scanner = record { fscanf = next_number }

abbrev scanner-IsScanner : IsScanner scanner
scanner-IsScanner = record { numbers = λ ns. ns; scan_next = λ value ns. refl; scan_end = refl }

ones : ℕ → List ℕ
ones zero = []
ones (suc n) = 1 ∷ ones n

length-ones : (n : ℕ) → length (ones n) ≡ n
unfolding ones
length-ones zero = refl
length-ones (suc n) = ap suc (length-ones n)

-- Behind the two sizes, the first file has one number only.
data_processing_lem_example :
    let r = data_processing scanner (1234 ∷ 250 ∷ 7 ∷ []) (ones 1002) x y in
    let ns1 : List ℕ = 1234 ∷ 250 ∷ 7 ∷ [] in
    ((i k : ℕ) → i < matrix_row_x → k < 250 → r.x i k ≡ number_at ns1 250 x i k)
    × ((2 + matrix_row_x * 250 ≤ length ns1)
          × ((k j : ℕ) → k < 250 → j < 4 → r.y k j ≡ number_at (ones 1002) 4 y k j)
          × (((2 + 250 * 4 ≤ length (ones 1002)) × (r.complete ≡ true))
              ⊎ ((length (ones 1002) < 2 + 250 * 4) × (r.complete ≡ false)))
        ⊎ (length ns1 < 2 + matrix_row_x * 250) × (r.y ≡ y) × (r.complete ≡ false))
data_processing_lem_example =
    data_processing_lem scanner scanner-IsScanner (1234 ∷ 250 ∷ 7 ∷ []) (ones 1002) x y

single_main_lem_example :
    single_main scanner (ones 308502) (ones 1002) x y
    ≡ (matrix_row_x ∷ 4 ∷ [])
      ∷ write_rows
          (product (number_at (ones 308502) 250 (λ i k. 0)) (number_at (ones 1002) 4 (λ k j. 0)))
          matrix_row_x
          0
single_main_lem_example =
    single_main_lem scanner scanner-IsScanner (ones 308502) (ones 1002) x y
      (omega (arith, length-ones 308502)) (omega (arith, length-ones 1002))
