-- ===== src/Shell/Session/Records.antt =====
-- Lab2: what read_line makes of the bytes of a round, and the lines that it records.
use mathlib.Core.Path.{subst}
use mathlib.Core.List.{append-nil}
use fall_oslab.Base.{
  ℕ, ◌≡◌, refl, sym, List, [], ◌∷◌, ◌++◌, Option, none, some, ◌==◌, ◌||◌, if◌then◌else◌, get_or,
  Bool-cases, inl, inr,
}
use fall_oslab.Shell.Command.{Text, History, line, entered, fgets_stored, read_line}
use fall_oslab.Shell.Command.Log.{Logs, record_line-Logs}
use fall_oslab.Shell.Pipeline.{Descriptors}
use fall_oslab.Shell.Session.{Round}

pub read_line-typed :
    (h : History) (input : Option Text) (b : Text)
    → (read_line h input).1 ≡ line b
    → (given : Text) × (input ≡ some given) × (entered given ≡ b)
unfolding read_line
read_line-typed h none b e = absurd (cc e)
read_line-typed h (some input) b e =
    let c = get_or (fgets_stored input) 0 0 in
    elim (Bool-cases (c == b'\n' || c == b' ' || c == b'\t')) [
      | inl f ↦ absurd (cc (rw (read_line, f) at e))
      | inr f ↦ let e' = rw (read_line, f) at e in (input, refl, cc e')
    ]

abbrev pub Same : Descriptors → Descriptors → Type 0
Same t t' = (q : ℕ) → t' q ≡ t q

-- The specification of the history: the lines that do not begin with white space.
abbrev pub recorded : Option Text → List Text
recorded none = []
recorded (some b) =
    let c = get_or (fgets_stored b) 0 0 in
    if c == b'\n' || c == b' ' || c == b'\t' then [] else entered b ∷ []

abbrev pub log_of : List Round → List Text
log_of [] = []
log_of (r ∷ rs) = recorded r.input ++ log_of rs

pub read_line-Logs :
    (h : History) (log : List Text) (input : Option Text)
    → Logs h log
    → Logs (read_line h input).0 (log ++ recorded input)
unfolding read_line
read_line-Logs h log none l = subst (Logs h) (sym (append-nil log)) l
read_line-Logs h log (some b) l =
    let c = get_or (fgets_stored b) 0 0 in
    elim (Bool-cases (c == b'\n' || c == b' ' || c == b'\t')) [
      | inl e ↦ rw e (subst (Logs h) (sym (append-nil log)) l)
      | inr e ↦ rw e (record_line-Logs log (entered b) l)
    ]
