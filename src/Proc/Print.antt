-- ===== src/Proc/Print.antt =====
-- What both modules take from the kernel's library: snprintf, and strings in memory.
use mathlib.Core.Path.{ap₂}
use mathlib.Core.List.{append_assoc}
use fall_oslab.Base.{
  ℕ, zero, suc, ◌+◌, ◌-◌, ◌≤◌, ◌<◌, ◌≡◌, refl, sym, ap, ◌∙◌, List, [], ◌∷◌, ◌++◌, arith, length,
  take, min, take-load_bytes, length-take, ◌==◌, false, inl, inr, store_bytes, load_bytes,
  load_bytes-store_bytes, load_bytes-add, take_all, length-append, load_bytes-store_bytes_apart,
}
use fall_oslab.Mailbox.Text.{c_string}

-- snprintf(m + p, size, …) of a text, for a size that is not 0: what it stores. It returns the text's
-- length, whatever the size.
abbrev pub snprintf : (m : ℕ → ℕ) (p size : ℕ) → List ℕ → ℕ → ℕ
snprintf m p size text = store_bytes m p (take (size - 1) text ++ (0 ∷ []))

-- A list of bytes without a NUL.
abbrev pub IsText : List ℕ → Type 0
IsText [] = Unit
IsText (c ∷ cs) = ((c == 0) ≡ false) × IsText cs

pub c_string-append : (cs r : List ℕ) → IsText cs → c_string (cs ++ (0 ∷ r)) ≡ cs
unfolding c_string
c_string-append [] r h = refl
c_string-append (c ∷ cs) r h = rw (c_string, h.0) (ap (λ t. c ∷ t) (c_string-append cs r (h.1)))

pub take-IsText : (n : ℕ) (cs : List ℕ) → IsText cs → IsText (take n cs)
take-IsText zero cs h = tt
take-IsText (suc n) [] h = tt
take-IsText (suc n) (c ∷ cs) h = (h.0, take-IsText n cs (h.1))

take-append : (a b : List ℕ) → take (length a) (a ++ b) ≡ a
take-append [] b = refl
take-append (c ∷ a) b = ap (λ t. c ∷ t) (take-append a b)

load_bytes-store_bytes_front :
    (a b : List ℕ) (m : ℕ → ℕ) (p : ℕ) → load_bytes (store_bytes m p (a ++ b)) p (length a) ≡ a
load_bytes-store_bytes_front a b m p =
    let e : length a ≡ min (length a) (length (a ++ b)) = omega (arith, length-append a b) in
    ap (load_bytes (store_bytes m p (a ++ b)) p) e
    ∙ sym (take-load_bytes (store_bytes m p (a ++ b)) p (length a) (length (a ++ b)))
    ∙ ap (take (length a)) (load_bytes-store_bytes (a ++ b) m p)
    ∙ take-append a b

-- A text that fits is read back.
pub load_bytes-snprintf :
    (m : ℕ → ℕ) (p size : ℕ) (text : List ℕ)
    → length text < size
    → load_bytes (snprintf m p size text) p (length text) ≡ text
load_bytes-snprintf m p size text h =
    ap (λ w. load_bytes (store_bytes m p (w ++ (0 ∷ []))) p (length text))
      (take_all (size - 1) text (omega arith))
    ∙ load_bytes-store_bytes_front text (0 ∷ []) m p

-- Of a text that does not fit, all but the last of the size's bytes are stored; behind the NUL stand
-- the bytes that stood there.
pub load_bytes-snprintf_cut :
    (m : ℕ → ℕ) (p size n : ℕ) (text : List ℕ)
    → 1 ≤ size
    → size ≤ length text
    → load_bytes (snprintf m p size text) p (size + n)
      ≡ take (size - 1) text ++ (0 ∷ load_bytes m (p + size) n)
load_bytes-snprintf_cut m p size n text h g =
    let stored = take (size - 1) text ++ (0 ∷ []) in
    let e : length stored ≡ size =
      omega (arith, length-append (take (size - 1) text) (0 ∷ []), length-take (size - 1) text) in
    load_bytes-add (store_bytes m p stored) p size n (size + n) refl
    ∙ ap₂ ◌++◌
        (ap (load_bytes (store_bytes m p stored) p) (sym e) ∙ load_bytes-store_bytes stored m p)
        (load_bytes-store_bytes_apart stored m p (p + size) n (inr (omega arith)))
    ∙ append_assoc (take (size - 1) text) (0 ∷ []) (load_bytes m (p + size) n)

-- The bytes in front of a text stay.
pub load_bytes-snprintf_front :
    (m : ℕ → ℕ) (p size : ℕ) (text : List ℕ)
    → load_bytes (snprintf m p size text) 0 p ≡ load_bytes m 0 p
load_bytes-snprintf_front m p size text =
    load_bytes-store_bytes_apart (take (size - 1) text ++ (0 ∷ [])) m p 0 p (inl (omega arith))

-- A text of which the first bytes stand in memory, and the rest is printed behind them: all of it, if
-- it fits, or its first bytes.
pub load_bytes-snprintf_behind :
    (m : ℕ → ℕ) (front text : List ℕ) (size : ℕ)
    → load_bytes m 0 (length front) ≡ front
    → length text < size
    → load_bytes (snprintf m (length front) size text) 0 (length (front ++ text)) ≡ front ++ text
load_bytes-snprintf_behind m front text size e h =
    load_bytes-add (snprintf m (length front) size text) 0 (length front) (length text)
      (length (front ++ text)) (omega (arith, length-append front text))
    ∙ ap₂ ◌++◌ (load_bytes-snprintf_front m (length front) size text ∙ e) (
        ap (λ q. load_bytes (snprintf m (length front) size text) q (length text)) (omega arith)
        ∙ load_bytes-snprintf m (length front) size text h)

take-append_past :
    (n : ℕ) (a b : List ℕ) → length a ≤ n → take n (a ++ b) ≡ a ++ take (n - length a) b
take-append_past n [] b h = ap (λ k. take k b) {x = n} (omega arith)
take-append_past zero (c ∷ a) b h = absurd (omega arith)
take-append_past (suc n) (c ∷ a) b h =
    ap (λ t. c ∷ t)
      (take-append_past n a b (omega arith)
        ∙ ap (λ k. a ++ take k b) {x = n - length a} (omega arith))

pub load_bytes-snprintf_behind_cut :
    (m : ℕ → ℕ) (front text : List ℕ) (size n : ℕ)
    → load_bytes m 0 (length front) ≡ front
    → length front < size
    → length (front ++ text) ≡ size + n
    → load_bytes (snprintf m (length front) (size - length front) text) 0 (size + n)
      ≡ take (size - 1) (front ++ text) ++ (0 ∷ load_bytes m size n)
load_bytes-snprintf_behind_cut m front text size n e h g =
    let left = size - length front in
    let m' = snprintf m (length front) left text in
    load_bytes-add m' 0 (length front) (left + n) (size + n) (omega arith)
    ∙ ap₂ ◌++◌ (load_bytes-snprintf_front m (length front) left text ∙ e) (
        ap (λ q. load_bytes m' q (left + n)) (omega arith)
        ∙ load_bytes-snprintf_cut m (length front) left n text (omega arith)
            (omega (arith, length-append front text)))
    ∙ sym (append_assoc front (take (left - 1) text) (0 ∷ load_bytes m (length front + left) n))
    ∙ ap₂ (λ a k. a ++ (0 ∷ load_bytes m k n))
        (ap (λ k. front ++ take k text) (omega arith)
          ∙ sym (take-append_past (size - 1) front text (omega arith)))
        (omega arith)
