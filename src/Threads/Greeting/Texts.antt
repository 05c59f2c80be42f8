-- ===== src/Threads/Greeting/Texts.antt =====
-- Lab3/3/3_2/3_2.c: the texts that go through the proc file and the loop over fgets.
use fall_oslab.Base.{
  ℕ, zero, suc, ◌≤◌, ◌<◌, ◌≡◌, refl, ap, ◌∙◌, List, [], ◌∷◌, ◌++◌, Bool, true, false, if◌then◌else◌,
  ◌==◌, arith, length, load_bytes, Bool-cases, inl, inr,
}
use fall_oslab.Kernel.{IsCopy, ok, err}
use fall_oslab.Mailbox.Text.{c_string}
use fall_oslab.Mailbox.Lines.{fgets_line, fgets_rest}
use fall_oslab.Proc.Print.{IsText, load_bytes-snprintf, c_string-append}
use fall_oslab.Proc.Hello.{bufsize, mywrite, myread, c_string-update, mywrite_lem}
use fall_oslab.Threads.Greeting.{Calls, fetch}

-- buf holds this text.
abbrev pub Holds : (text : List ℕ) (buf : ℕ → ℕ) → Type 0
Holds text buf = c_string (load_bytes buf 0 bufsize) ≡ text

-- The test for a NUL.
abbrev has_no_nul : List ℕ → Bool
has_no_nul [] = true
has_no_nul (c ∷ cs) = let rest = has_no_nul cs in if c == 0 then false else rest

pub has_no_nul-IsText : (cs : List ℕ) → has_no_nul cs ≡ true → IsText cs
has_no_nul-IsText [] e = tt
has_no_nul-IsText (c ∷ cs) e = ground (arith, has_no_nul-IsText cs)

pub append-IsText : (a b : List ℕ) → IsText a → IsText b → IsText (a ++ b)
append-IsText [] b h g = g
append-IsText (c ∷ a) b h g = (h.0, append-IsText a b (h.1) g)

pub IsText-behind : (a b : List ℕ) → IsText (a ++ b) → IsText b
IsText-behind [] b h = h
IsText-behind (c ∷ a) b h = IsText-behind a b (h.1)

IsText-front : (a b : List ℕ) → IsText (a ++ b) → IsText a
IsText-front [] b h = tt
IsText-front (c ∷ a) b h = (h.0, IsText-front a b (h.1))

fgets_line-fgets_rest : (n : ℕ) (cs : List ℕ) → fgets_line n cs ++ fgets_rest n cs ≡ cs
unfolding fgets_line fgets_rest
fgets_line-fgets_rest zero cs = refl
fgets_line-fgets_rest (suc n) [] = refl
fgets_line-fgets_rest (suc n) (c ∷ cs) = elim (Bool-cases (c == b'\n')) [
  | inl e ↦ rw (fgets_line, fgets_rest, e) refl
  | inr e ↦ rw (fgets_line, fgets_rest, e) (ap (λ t. c ∷ t) (fgets_line-fgets_rest n cs))
]

-- One round of the loop prints a first part of a text, and leaves the rest.
pub printed-fgets_rest :
    (n : ℕ) (cs : List ℕ)
    → IsText cs
    → c_string (fgets_line n cs ++ (0 ∷ [])) ++ fgets_rest n cs ≡ cs
printed-fgets_rest n cs h =
    let whole = fgets_line-fgets_rest n cs in
    ap (λ t. t ++ fgets_rest n cs)
      (c_string-append (fgets_line n cs) []
        (IsText-front (fgets_line n cs) (fgets_rest n cs) (rw whole h)))
    ∙ whole

module _ (calls : Calls) where
  -- Both copies go through.
  pub record Works : Type 0 where
    pub law : IsCopy calls.copy
    pub copies_in : (text : List ℕ) → length text < bufsize → (calls.copy text (length text)).1 ≡ 0
    pub copies_out : (n : ℕ) → n ≤ bufsize → calls.left n ≡ 0

  module _ (works : Works) where
    myread-Holds :
        (info text : List ℕ) (buf : ℕ → ℕ)
        → Holds text buf
        → length (text ++ info) < bufsize
        → let n = length (text ++ info) in
          myread calls.left buf calls.stack info 0
          ≡ record { result = ok n; offset = n; ubuf = text ++ info }
    unfolding myread
    myread-Holds info text buf h fits =
        let n = length (text ++ info) in
        rw (h, works.copies_out n (omega (arith, fits)))
          (ap (λ u. record { result = ok n; offset = n; ubuf = u })
            (load_bytes-snprintf calls.stack 0 bufsize (text ++ info) fits))

    -- A read gives the text that buf holds and the thread's line.
    pub fetch-Holds :
        (info text : List ℕ) (buf : ℕ → ℕ)
        → Holds text buf
        → length (text ++ info) < bufsize
        → fetch calls info buf ≡ text ++ info
    unfolding fetch
    fetch-Holds info text buf h fits =
        ap (λ out. elim (out.result) [ ok n ↦ out.ubuf | err e ↦ [] ])
          (myread-Holds info text buf h fits)

    -- Behind a write buf holds the text written.
    pub mywrite-Holds :
        (text : List ℕ) (buf : ℕ → ℕ)
        → IsText text
        → length text < bufsize
        → Holds text (mywrite calls.copy buf text (length text)).1
    mywrite-Holds text buf is_text fits =
        rw (mywrite_lem calls.copy works.law buf text fits (works.copies_in text fits))
          (c_string-update buf text bufsize is_text fits)
