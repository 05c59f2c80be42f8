-- ===== src/Threads/Matrix/Reading/Rows.antt =====
-- Lab3/2/2_1.c: the elements that the loops over a file of numbers store.
use mathlib.Core.Path.{subst}
use fall_oslab.Base.{
  ℕ, zero, suc, ◌+◌, ◌≤◌, ◌<◌, ◌≡◌, ◌≢◌, refl, sym, ap, ◌∙◌, List, [], ◌∷◌, Option, none, some,
  Bool, true, false, arith, length, get_or, drop, ◌⊎◌, inl, inr,
}
use fall_oslab.Threads.Matrix.{Matrix, set_element}
use fall_oslab.Threads.Matrix.Reading.{Scanner, read_row}

-- What fscanf does on a file of numbers: it stores the next one, and fails behind the last.
pub record IsScanner {File : Type 0} (scanner : Scanner File) : Type 0 where
  pub numbers : List ℕ → File
  pub scan_next :
      (value : ℕ) (ns : List ℕ) → scanner.fscanf (numbers (value ∷ ns)) ≡ (some value, numbers ns)
  pub scan_end : scanner.fscanf (numbers []) ≡ (none, numbers [])

pub get_or-drop : (n : ℕ) (ns : List ℕ) (i d : ℕ) → get_or (drop n ns) i d ≡ get_or ns (n + i) d
get_or-drop zero ns i d = ap (λ k. get_or ns k d) {x = i} (omega arith)
get_or-drop (suc n) [] i d = refl
get_or-drop (suc n) (x ∷ ns) i d =
    get_or-drop n ns i d ∙ ap (λ k. get_or (x ∷ ns) k d) {x = suc (n + i)} (omega arith)

pub get_or_past : (ns : List ℕ) (i d : ℕ) → length ns ≤ i → get_or ns i d ≡ d
get_or_past [] i d h = refl
get_or_past (x ∷ ns) zero d h = absurd (omega arith)
get_or_past (x ∷ ns) (suc i) d h = get_or_past ns i d (omega arith)

module _ {File : Type 0} (scanner : Scanner File) (law : IsScanner scanner) where
  -- A loop of n calls on the numbers ns has come to its end, or to the end of the file.
  abbrev pub Ended : (ns : List ℕ) (n : ℕ) → Bool → File → Type 0
  Ended ns n complete file =
      ((n ≤ length ns) × (complete ≡ true) × (file ≡ law.numbers (drop n ns)))
      ⊎ ((length ns < n) × (complete ≡ false))

  -- The elements behind the loop over j: those from j on are the numbers, as far as there are any.
  pub record RowRead (ns : List ℕ) (i n j : ℕ) (m m' : Matrix) : Type 0 where
    pub inside : (q : ℕ) → q < n → m' i (j + q) ≡ get_or ns q (m i (j + q))
    pub before : (q : ℕ) → q < j → m' i q ≡ m i q
    pub other : (p q : ℕ) → p ≢ i → m' p q ≡ m p q

  unfoldable pub Row : (ns : List ℕ) (i n j : ℕ) (m : Matrix) → Bool × File × Matrix → Type 0
  Row ns i n j m r = Ended ns n (r.0) (r.1) × RowRead ns i n j m (r.2)

  -- The loop behind a call of fscanf.
  abbrev scanned : (i n j : ℕ) (m : Matrix) → Option ℕ × File → Bool × File × Matrix
  scanned i n j m r = elim (r.0) [
    | none ↦ (false, r.1, m)
    | some value ↦ read_row scanner i n (j + 1) (r.1) (set_element m i j value)
  ]

  read_row-scan :
      (ns : List ℕ) (i n j : ℕ) (m : Matrix) (r : Option ℕ × File)
      → scanner.fscanf (law.numbers ns) ≡ r
      → Row ns i (suc n) j m (scanned i n j m r)
      → Row ns i (suc n) j m (read_row scanner i (suc n) j (law.numbers ns) m)
  unfolding read_row
  read_row-scan ns i n j m r e v = subst (λ r. Row ns i (suc n) j m (scanned i n j m r)) (sym e) v

  RowRead-cons :
      (value : ℕ) (ns : List ℕ) (i n j : ℕ) (m m' : Matrix)
      → RowRead ns i n (j + 1) (set_element m i j value) m'
      → RowRead (value ∷ ns) i (suc n) j m m'
  RowRead-cons value ns i n j m m' read = record {
    inside = inside;
    before = λ q h. read.before q (omega arith) ∙ ground arith;
    other = λ p q ne. read.other p q ne ∙ ground arith;
  }
    where
      inside : (q : ℕ) → q < suc n → m' i (j + q) ≡ get_or (value ∷ ns) q (m i (j + q))
      inside zero h = read.before (j + 0) (omega arith) ∙ ground arith
      inside (suc q) h =
          let e : j + suc q ≡ j + 1 + q = omega arith in
          let kept : set_element m i j value i (j + 1 + q) ≡ m i (j + 1 + q) = ground arith in
          rw e (read.inside q (omega arith) ∙ ap (get_or ns q) kept)

  Ended-cons :
      (value : ℕ) (ns : List ℕ) (n : ℕ) (complete : Bool) (file : File)
      → Ended ns n complete file
      → Ended (value ∷ ns) (suc n) complete file
  Ended-cons value ns n complete file (inl (h, e, f)) = inl (omega arith, e, f)
  Ended-cons value ns n complete file (inr (h, e)) = inr (omega arith, e)

  pub read_row-Row :
      (ns : List ℕ) (i n j : ℕ) (m : Matrix)
      → Row ns i n j m (read_row scanner i n j (law.numbers ns) m)
  unfolding read_row Row
  read_row-Row ns i zero j m = (
    inl (omega arith, refl, refl),
    record { inside = λ q h. absurd (omega arith); before = λ q h. refl; other = λ p q ne. refl },
  )
  read_row-Row [] i (suc n) j m =
      read_row-scan [] i n j m (none, law.numbers []) law.scan_end
        (
          inr (omega arith, refl),
          record { inside = λ q h. refl; before = λ q h. refl; other = λ p q ne. refl },
        )
  read_row-Row (value ∷ ns) i (suc n) j m =
      let m1 = set_element m i j value in
      let (ended, read) = read_row-Row ns i n (j + 1) m1 in
      let (complete, file, m') = read_row scanner i n (j + 1) (law.numbers ns) m1 in
      read_row-scan (value ∷ ns) i n j m (some value, law.numbers ns) (law.scan_next value ns)
        (Ended-cons value ns n complete file ended, RowRead-cons value ns i n j m m' read)
