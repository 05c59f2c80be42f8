-- ===== src/Mailbox/Text.antt =====
-- Lab1: the bytes that the calls of the C library on strings store.
use fall_oslab.Base.{
  ℕ, zero, suc, ◌≡◌, refl, List, [], ◌∷◌, ◌++◌, true, false, ◌==◌, ◌||◌, arith, take,
}

-- The string in an array: its bytes in front of the first NUL.
unfoldable pub c_string : List ℕ → List ℕ
c_string [] = []
c_string (c ∷ cs) = elim (c == 0) [ true ↦ [] | false ↦ c ∷ c_string cs ]

abbrev pub zeros : ℕ → List ℕ
zeros zero = []
zeros (suc n) = 0 ∷ zeros n

-- The n bytes that strncpy(dst, src, n) stores.
unfoldable pub strncpy : ℕ → List ℕ → List ℕ
strncpy zero src = []
strncpy (suc n) [] = zeros (suc n)
strncpy (suc n) (c ∷ cs) = elim (c == 0) [ true ↦ zeros (suc n) | false ↦ c ∷ strncpy n cs ]

-- array[i] = v
abbrev pub set : List ℕ → ℕ → ℕ → List ℕ
set [] i v = []
set (x ∷ xs) zero v = v ∷ xs
set (x ∷ xs) (suc i) v = x ∷ set xs i v

-- strcspn(array, "\n")
unfoldable pub strcspn_newline : List ℕ → ℕ
strcspn_newline [] = 0
strcspn_newline (c ∷ cs) = elim (c == b'\n' || c == 0) [
  | true ↦ 0
  | false ↦ suc (strcspn_newline cs)
]

-- The bytes of a line in front of its newline or of a NUL.
unfoldable pub text_of : List ℕ → List ℕ
text_of [] = []
text_of (c ∷ cs) = elim (c == b'\n' || c == 0) [ true ↦ [] | false ↦ c ∷ text_of cs ]

c_string-set-zeros : (n : ℕ) → c_string (set (zeros (suc n)) n 0) ≡ []
unfolding c_string
c_string-set-zeros zero = refl
c_string-set-zeros (suc n) = refl

c_string-zeros : (n : ℕ) (r : List ℕ) → c_string (zeros n ++ (0 ∷ r)) ≡ []
unfolding c_string
c_string-zeros zero r = refl
c_string-zeros (suc n) r = refl

-- strncpy(dst, src, n + 1); dst[n] = 0
pub c_string-set-strncpy :
    (n : ℕ) (src : List ℕ) → c_string (set (strncpy (suc n) src) n 0) ≡ take n (c_string src)
unfolding c_string strncpy
c_string-set-strncpy zero [] = refl
c_string-set-strncpy (suc n) [] = refl
c_string-set-strncpy zero (c ∷ cs) = ground arith
c_string-set-strncpy (suc n) (c ∷ cs) =
    ground (arith, c_string-set-strncpy n cs, c_string-set-zeros n)

-- strncpy(dst, src, n); dst[n] = 0
pub c_string-strncpy :
    (n : ℕ) (src : List ℕ) → c_string (strncpy n src ++ (0 ∷ [])) ≡ take n (c_string src)
unfolding c_string strncpy
c_string-strncpy zero src = refl
c_string-strncpy (suc n) [] = refl
c_string-strncpy (suc n) (c ∷ cs) = ground (arith, c_string-strncpy n cs, c_string-zeros n [])
