-- ===== src/Threads/Matrix/Reading/Matrices.antt =====
-- Lab3/2/2_1.c: the matrix that the loops over i and j store.
use mathlib.Core.Path.{subst, ap₂}
use fall_oslab.Base.{
  ℕ, zero, suc, ◌+◌, ◌-◌, ◌*◌, ◌≤◌, ◌<◌, ◌≡◌, refl, sym, ap, ◌∙◌, List, [], ◌∷◌, Bool, true, false,
  arith, length, get_or, drop, inl, inr,
}
use fall_oslab.Threads.Matrix.{Matrix}
use fall_oslab.Threads.Matrix.Reading.{Scanner, read_row, read_matrix}
use fall_oslab.Threads.Matrix.Reading.Rows.{
  IsScanner, get_or-drop, get_or_past, Ended, Row, RowRead, read_row-Row,
}

pub length-drop : (n : ℕ) (ns : List ℕ) → length (drop n ns) ≡ length ns - n
length-drop zero ns = omega arith
length-drop (suc n) [] = omega arith
length-drop (suc n) (x ∷ ns) = omega (arith, length-drop n ns)

drop_nil : (n : ℕ) → drop {A = ℕ} n [] ≡ []
drop_nil zero = refl
drop_nil (suc n) = refl

pub drop-drop : (a b : ℕ) (ns : List ℕ) → drop b (drop a ns) ≡ drop (a + b) ns
drop-drop zero b ns = ap (λ k. drop k ns) {x = b} (omega arith)
drop-drop (suc a) b [] = drop_nil b ∙ sym (drop_nil (suc a + b))
drop-drop (suc a) b (x ∷ ns) =
    drop-drop a b ns ∙ ap (λ k. drop k (x ∷ ns)) {x = suc (a + b)} (omega arith)

suc_mul : (n c : ℕ) → suc n * c ≡ c + n * c
suc_mul n c = ground arith

module _ {File : Type 0} (scanner : Scanner File) (law : IsScanner scanner) (cols : ℕ) where
  -- The elements behind the loop over i: row by row, they are the numbers, as far as there are any.
  pub record MatrixRead (ns : List ℕ) (n i : ℕ) (m m' : Matrix) : Type 0 where
    pub inside :
        (a q : ℕ) → a < n → q < cols → m' (i + a) q ≡ get_or ns (a * cols + q) (m (i + a) q)
    pub before : (p q : ℕ) → p < i → m' p q ≡ m p q

  MatrixRead-cons :
      (ns : List ℕ) (n i : ℕ) (m m1 m' : Matrix)
      → RowRead scanner law ns i cols 0 m m1
      → MatrixRead (drop cols ns) n (i + 1) m1 m'
      → MatrixRead ns (suc n) i m m'
  MatrixRead-cons ns n i m m1 m' row read = record {
    inside = inside;
    before = λ p q h. read.before p q (omega arith) ∙ row.other p q (omega arith);
  }
    where
      inside :
          (a q : ℕ) → a < suc n → q < cols → m' (i + a) q ≡ get_or ns (a * cols + q) (m (i + a) q)
      inside zero q h k =
          let e : i + 0 ≡ i = omega arith in
          let f : 0 * cols + q ≡ q = omega arith in
          let g : 0 + q ≡ q = omega arith in
          rw (e, f)
            (read.before i q (omega arith)
              ∙ subst (λ c. m1 i c ≡ get_or ns q (m i c)) g (row.inside q k))
      inside (suc a) q h k =
          let e : i + suc a ≡ i + 1 + a = omega arith in
          let f : suc a * cols + q ≡ cols + (a * cols + q) = omega (arith, suc_mul a cols) in
          rw (e, f)
            (read.inside a q (omega arith) k
              ∙ get_or-drop cols ns (a * cols + q) (m1 (i + 1 + a) q)
              ∙ ap (get_or ns (cols + (a * cols + q))) (row.other (i + 1 + a) q (omega arith)))

  MatrixRead-short :
      (ns : List ℕ) (n i : ℕ) (m m1 : Matrix)
      → length ns < cols
      → RowRead scanner law ns i cols 0 m m1
      → MatrixRead ns (suc n) i m m1
  MatrixRead-short ns n i m m1 short row = record {
    inside = inside;
    before = λ p q h. row.other p q (omega arith);
  }
    where
      inside :
          (a q : ℕ) → a < suc n → q < cols → m1 (i + a) q ≡ get_or ns (a * cols + q) (m (i + a) q)
      inside zero q h k =
          let e : i + 0 ≡ i = omega arith in
          let f : 0 * cols + q ≡ q = omega arith in
          let g : 0 + q ≡ q = omega arith in
          rw (e, f) (subst (λ c. m1 i c ≡ get_or ns q (m i c)) g (row.inside q k))
      inside (suc a) q h k =
          row.other (i + suc a) q (omega arith)
          ∙ sym
              (get_or_past ns (suc a * cols + q) (m (i + suc a) q) (omega (arith, suc_mul a cols)))

  Ended-cons :
      (ns : List ℕ) (n : ℕ) (complete : Bool) (file : File)
      → cols ≤ length ns
      → Ended scanner law (drop cols ns) (n * cols) complete file
      → Ended scanner law ns (suc n * cols) complete file
  Ended-cons ns n complete file h (inl (k, e, f)) = inl (
    omega (arith, suc_mul n cols, length-drop cols ns),
    e,
    f ∙ ap law.numbers (drop-drop cols (n * cols) ns ∙ ap (λ k. drop k ns) (sym (suc_mul n cols))),
  )
  Ended-cons ns n complete file h (inr (k, e)) =
      inr (omega (arith, suc_mul n cols, length-drop cols ns), e)

  unfoldable pub AllRead : (ns : List ℕ) (n i : ℕ) (m : Matrix) → Bool × File × Matrix → Type 0
  AllRead ns n i m r = Ended scanner law ns (n * cols) (r.0) (r.1) × MatrixRead ns n i m (r.2)

  -- The loop behind a row.
  abbrev behind_row : (n i : ℕ) → Bool × File × Matrix → Bool × File × Matrix
  behind_row n i r = elim (r.0) [
    | true ↦ read_matrix scanner cols n (i + 1) (r.1) (r.2)
    | false ↦ (false, r.1, r.2)
  ]

  read_matrix-row :
      (ns : List ℕ) (n i : ℕ) (m : Matrix) (complete : Bool) (file : File)
      → let r = read_row scanner i cols 0 (law.numbers ns) m in
        r.0 ≡ complete
        → r.1 ≡ file
        → behind_row n i (complete, file, r.2)
          ≡ read_matrix scanner cols (suc n) i (law.numbers ns) m
  unfolding read_matrix
  read_matrix-row ns n i m complete file e f =
      let r = read_row scanner i cols 0 (law.numbers ns) m in
      ap₂ (λ c g. behind_row n i (c, g, r.2)) (sym e) (sym f)

  pub read_matrix-AllRead :
      (ns : List ℕ) (n i : ℕ) (m : Matrix)
      → AllRead ns n i m (read_matrix scanner cols n i (law.numbers ns) m)
  unfolding read_matrix AllRead Row
  read_matrix-AllRead ns zero i m = (
    inl (omega arith, refl, ap (λ k. law.numbers (drop k ns)) {x = 0} {y = 0 * cols} (omega arith)),
    record { inside = λ a q h. absurd (omega arith); before = λ p q h. refl },
  )
  read_matrix-AllRead ns (suc n) i m =
      let (complete, file, m1) = read_row scanner i cols 0 (law.numbers ns) m in
      let (ended, row) = read_row-Row scanner law ns i cols 0 m in
      elim ended [
        | inl (h, e, f) ↦
            let rest = read_matrix scanner cols n (i + 1) (law.numbers (drop cols ns)) m1 in
            let (ended', read) = read_matrix-AllRead (drop cols ns) n (i + 1) m1 in
            subst (AllRead ns (suc n) i m)
              (read_matrix-row ns n i m true (law.numbers (drop cols ns)) e f)
              (
                Ended-cons ns n (rest.0) (rest.1) h ended',
                MatrixRead-cons ns n i m m1 (rest.2) row read,
              )
        | inr (h, e) ↦
            subst (AllRead ns (suc n) i m) (read_matrix-row ns n i m false file e refl)
              (inr (omega (arith, suc_mul n cols), refl), MatrixRead-short ns n i m m1 h row)
      ]
