-- ===== src/Mailbox/Lines.antt =====
-- Lab1/sender.c: the texts that the loop over fgets makes of a file.
use fall_oslab.Base.{
  ℕ, zero, suc, ◌≤◌, ◌<◌, ◌≡◌, refl, ap, List, [], ◌∷◌, ◌++◌, true, false, ◌==◌, arith, length,
}
use fall_oslab.Mailbox.Text.{c_string, strcspn_newline, set, text_of}

-- The bytes that fgets(array, n + 1, fp) stores in front of the NUL, and the rest of the file.
unfoldable pub fgets_line : ℕ → List ℕ → List ℕ
fgets_line zero cs = []
fgets_line (suc n) [] = []
fgets_line (suc n) (c ∷ cs) = elim (c == b'\n') [ true ↦ c ∷ [] | false ↦ c ∷ fgets_line n cs ]

unfoldable pub fgets_rest : ℕ → List ℕ → List ℕ
fgets_rest zero cs = cs
fgets_rest (suc n) [] = []
fgets_rest (suc n) (c ∷ cs) = elim (c == b'\n') [ true ↦ cs | false ↦ fgets_rest n cs ]

-- The array after fgets, and after msgText[strcspn(msgText, "\n")] = 0; `old` is what stood behind.
unfoldable pub stored_line : (line old : List ℕ) → List ℕ
stored_line line old = let array = line ++ (0 ∷ old) in set array (strcspn_newline array) 0

pub c_string-stored_line : (line old : List ℕ) → c_string (stored_line line old) ≡ text_of line
unfolding stored_line c_string strcspn_newline text_of
c_string-stored_line [] old = refl
c_string-stored_line (c ∷ cs) old = ground (arith, c_string-stored_line cs old)

length-text_of : (cs : List ℕ) → length (text_of cs) ≤ length cs
unfolding text_of
length-text_of [] = omega arith
length-text_of (c ∷ cs) = ground (arith, length-text_of cs)

length-fgets_line : (n : ℕ) (cs : List ℕ) → length (fgets_line n cs) ≤ n
unfolding fgets_line
length-fgets_line zero cs = omega arith
length-fgets_line (suc n) [] = omega arith
length-fgets_line (suc n) (c ∷ cs) = ground (arith, length-fgets_line n cs)

length-fgets_rest : (n : ℕ) (cs : List ℕ) → length (fgets_rest n cs) ≤ length cs
unfolding fgets_rest
length-fgets_rest zero cs = omega arith
length-fgets_rest (suc n) [] = omega arith
length-fgets_rest (suc n) (c ∷ cs) = ground (arith, length-fgets_rest n cs)

-- Each call of fgets on a file that has not ended takes a byte at least.
pub fgets_rest-lt : (n c : ℕ) (cs : List ℕ) → length (fgets_rest (suc n) (c ∷ cs)) < length (c ∷ cs)
unfolding fgets_rest
fgets_rest-lt n c cs = ground (arith, length-fgets_rest n cs)

-- The texts of a file for an array of 1024 bytes; every call takes a byte, so that the file's length
-- is fuel enough.
abbrev texts_from : (fuel : ℕ) → List ℕ → List (List ℕ)
texts_from zero cs = []
texts_from (suc f) [] = []
texts_from (suc f) (c ∷ cs) =
    text_of (fgets_line 1023 (c ∷ cs)) ∷ texts_from f (fgets_rest 1023 (c ∷ cs))

abbrev pub texts : List ℕ → List (List ℕ)
texts cs = texts_from (length cs) cs

texts_from_fuel :
    (f g : ℕ) (cs : List ℕ) → length cs ≤ f → length cs ≤ g → texts_from f cs ≡ texts_from g cs
texts_from_fuel zero zero cs h k = refl
texts_from_fuel zero (suc g) [] h k = refl
texts_from_fuel zero (suc g) (c ∷ cs) h k = absurd (omega arith)
texts_from_fuel (suc f) zero [] h k = refl
texts_from_fuel (suc f) zero (c ∷ cs) h k = absurd (omega arith)
texts_from_fuel (suc f) (suc g) [] h k = refl
texts_from_fuel (suc f) (suc g) (c ∷ cs) h k =
    ap (λ t. text_of (fgets_line 1023 (c ∷ cs)) ∷ t)
      (texts_from_fuel f g (fgets_rest 1023 (c ∷ cs)) (omega (arith, fgets_rest-lt 1022 c cs))
        (omega (arith, fgets_rest-lt 1022 c cs)))

pub texts-cons :
    (c : ℕ) (cs : List ℕ)
    → texts (c ∷ cs) ≡ text_of (fgets_line 1023 (c ∷ cs)) ∷ texts (fgets_rest 1023 (c ∷ cs))
texts-cons c cs =
    ap (λ t. text_of (fgets_line 1023 (c ∷ cs)) ∷ t)
      (texts_from_fuel (length cs) (length (fgets_rest 1023 (c ∷ cs))) (fgets_rest 1023 (c ∷ cs))
        (omega (arith, fgets_rest-lt 1022 c cs)) (omega arith))

pub length-text_of-fgets_line : (cs : List ℕ) → length (text_of (fgets_line 1023 cs)) ≤ 1023
length-text_of-fgets_line cs =
    omega (arith, length-text_of (fgets_line 1023 cs), length-fgets_line 1023 cs)
