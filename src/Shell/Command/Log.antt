-- ===== src/Shell/Command/Log.antt =====
-- The history ring of Lab2 against the list of all lines.
use mathlib.Core.Path.{ap₂}
use native.Mathlib.Decide.{ℕ_discrete, dec_lt}
use fall_oslab.Base.{
  ℕ, zero, suc, ◌+◌, ◌-◌, ◌%◌, ◌≤◌, ◌<◌, ◌≡◌, refl, ap, ◌∙◌, List, [], ◌∷◌, ◌++◌, lt→ltb, le→ltb,
  arith, length, length-append, get_or, drop,
}
use fall_oslab.Shell.Command.{Text, History, record_line}
use fall_oslab.Shell.Builtin.{first_lines, ring_lines, record_lines}

-- The lines of `log`, oldest first, of which the ring holds the last sixteen.
pub record Logs (h : History) (log : List Text) : Type 0 where
  pub count : h.history_count ≡ length log
  pub slot : (i : ℕ) → i < length log → length log ≤ i + 16 → h.history (i % 16) ≡ get_or log i []

-- The specification of record: the lines with their numbers from `n` on.
abbrev pub numbered : (n : ℕ) → List Text → List (ℕ × Text)
numbered n [] = []
numbered n (s ∷ ss) = (n, s) ∷ numbered (n + 1) ss

get_or-append_left :
    (xs ys : List Text) (i : ℕ) → i < length xs → get_or (xs ++ ys) i [] ≡ get_or xs i []
get_or-append_left [] ys i h = absurd (omega arith)
get_or-append_left (x ∷ xs) ys zero h = refl
get_or-append_left (x ∷ xs) ys (suc i) h = get_or-append_left xs ys i (omega arith)

get_or-append_last :
    (xs : List Text) (y : Text) (i : ℕ) → i ≡ length xs → get_or (xs ++ (y ∷ [])) i [] ≡ y
get_or-append_last [] y zero h = refl
get_or-append_last [] y (suc i) h = absurd (omega arith)
get_or-append_last (x ∷ xs) y zero h = absurd (omega arith)
get_or-append_last (x ∷ xs) y (suc i) h = get_or-append_last xs y i (omega arith)

-- The ring holds the last sixteen lines of a log, or all if there are fewer. Recording a line appends
-- it to that log, also once the ring is full and its oldest line is overwritten.
pub record_line-Logs :
    {h : History} (log : List Text) (s : Text)
    → Logs h log
    → Logs (record_line h s) (log ++ (s ∷ []))
unfolding record_line
record_line-Logs {h} log s l = record {
  count = omega (arith, l.count, length-append log (s ∷ []));
  slot = λ i lt near. elim (ℕ_discrete i (length log)) [
    | yes e ↦ ground (arith, l.count, get_or-append_last log s i e)
    | no ne ↦
        ground
          (arith, l.count, length-append log (s ∷ []), l.slot i, get_or-append_left log (s ∷ []) i)
  ];
}

drop-get_or :
    (log : List Text) (i : ℕ) → i < length log → drop i log ≡ get_or log i [] ∷ drop (suc i) log
drop-get_or [] i h = absurd (omega arith)
drop-get_or (x ∷ xs) zero h = refl
drop-get_or (x ∷ xs) (suc i) h = drop-get_or xs i (omega arith)

drop_all : (log : List Text) (i : ℕ) → length log ≤ i → drop i log ≡ []
drop_all [] zero h = refl
drop_all [] (suc i) h = refl
drop_all (x ∷ xs) zero h = absurd (omega arith)
drop_all (x ∷ xs) (suc i) h = drop_all xs i (omega arith)

-- The first loop reads the log itself.
first_lines-numbered :
    (h : History) (log : List Text) (n i : ℕ)
    → Logs h log
    → length log ≤ 16
    → i + n ≡ length log
    → first_lines h n i ≡ numbered (i + 1) (drop i log)
unfolding first_lines
first_lines-numbered h log zero i l small e = rw (drop_all log i (omega arith)) refl
first_lines-numbered h log (suc n) i l small e = rw (drop-get_or log i (omega arith)) (
    ap₂ (λ s r. (i + 1, s) ∷ r)
      (ap h.history {y = i % 16} (omega arith) ∙ l.slot i (omega arith) (omega arith))
      (first_lines-numbered h log n (i + 1) l small (omega arith)
        ∙ ap (λ t. numbered (i + 1 + 1) (drop t log)) {x = i + 1} {y = suc i} (omega arith)))

-- The second loop starts at the oldest line that the ring still holds: `j` in the log is `i` in the
-- loop, and both stand at the same slot.
ring_lines-numbered :
    (h : History) (log : List Text) (off n i j : ℕ)
    → Logs h log
    → j + n ≡ length log
    → n ≤ 16
    → i % 16 ≡ j % 16
    → off ≤ i
    → ring_lines h off n i ≡ numbered (i - off + 1) (drop j log)
unfolding ring_lines
ring_lines-numbered h log off zero i j l e small same le = rw (drop_all log j (omega arith)) refl
ring_lines-numbered h log off (suc n) i j l e small same le = rw (drop-get_or log j (omega arith)) (
    ap₂ (λ s r. (i - off + 1, s) ∷ r) (ap h.history same ∙ l.slot j (omega arith) (omega arith))
      (ring_lines-numbered h log off n (i + 1) (j + 1) l (omega arith) (omega arith) (omega arith)
          (omega arith)
        ∙ ap₂ (λ t u. numbered t (drop u log)) {x = i + 1 - off + 1} {y = i - off + 1 + 1}
            {u = j + 1} {v = suc j} (omega arith) (omega arith)))

-- With the ring that stands for a log of lines, the built-in record prints the last sixteen lines of
-- the log, or all of them if there are fewer, oldest first and numbered from 1.
pub record_lines-numbered :
    {h : History} (log : List Text)
    → Logs h log
    → record_lines h ≡ numbered 1 (drop (length log - 16) log)
unfolding record_lines
record_lines-numbered {h} log l = elim (dec_lt h.history_count 16) [
  | yes few ↦ rw (lt→ltb h.history_count 16 few) (
      first_lines-numbered h log h.history_count 0 l (omega (arith, l.count))
        (omega (arith, l.count))
      ∙ ap (λ t. numbered 1 (drop t log)) {x = 0} {y = length log - 16} (omega (arith, l.count)))
  | no many ↦
      let off = h.history_count % 16 in
      rw (le→ltb h.history_count 16 (omega arith)) (
        ring_lines-numbered h log off 16 off (length log - 16) l (omega (arith, l.count))
          (omega arith) (omega (arith, l.count)) (omega arith)
        ∙ ap (λ t. numbered t (drop (length log - 16) log)) {x = off - off + 1} {y = 1}
            (omega arith))
]
