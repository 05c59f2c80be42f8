-- ===== src/Threads/Greeting/Inv.antt =====
-- Lab3/3/3_2/3_2.c: the greetings in the module's buf and in the texts that the threads have got.
use mathlib.Core.Path.{subst}
use mathlib.Core.Option.{some-injective}
use fall_oslab.Base.{
  ℕ, ◌<◌, ◌≡◌, sym, ◌∙◌, List, ◌++◌, Option, none, some, Bool, true, false, length, ◌⊎◌, inl, inr,
  Bool-cases,
}
use fall_oslab.Proc.Print.{IsText}
use fall_oslab.Proc.Hello.{bufsize}
use fall_oslab.Threads.Matrix.{Matrix}
use fall_oslab.Threads.Greeting.{Calls, Work, Shared, Thread}
use fall_oslab.Threads.Greeting.Texts.{Holds, append-IsText}
use fall_oslab.Threads.Greeting.Actions.{wrote, got, Effect, quiet, writes, fetches}

-- The text that a thread has got has its own greeting, or else the other one, and then the other thread
-- has written, and no other write came or will come behind that.
abbrev pub Got : (own other : Work) (a b : Thread) (buf : ℕ → ℕ) → Type 0
Got own other a b buf =
    (text : List ℕ)
    → got a ≡ some text
    → (text ≡ own.greeting ++ own.info)
      ⊎ (text ≡ other.greeting ++ own.info) × (wrote b ≡ true) × Holds other.greeting buf

pub record BufInv (own other : Work) (a b : Thread) (buf : ℕ → ℕ) : Type 0 where
  pub first : wrote a ≡ true → wrote b ≡ false → Holds own.greeting buf
  pub second : wrote b ≡ true → wrote a ≡ false → Holds other.greeting buf
  pub both : wrote a ≡ true → wrote b ≡ true → Holds own.greeting buf ⊎ Holds other.greeting buf
  pub got_own : Got own other a b buf
  pub got_other : Got other own b a buf

pub BufInv-swap :
    (own other : Work) (a b : Thread) (buf : ℕ → ℕ)
    → BufInv own other a b buf
    → BufInv other own b a buf
BufInv-swap own other a b buf v = record {
  first = v.second;
  second = v.first;
  both = λ e f. elim (v.both f e) [ inl k ↦ inr k | inr k ↦ inl k ];
  got_own = v.got_other;
  got_other = v.got_own;
}

-- The works of both threads: texts without a NUL that fit in the module's buffers together.
pub record Fitting (own other : Work) : Type 0 where
  pub greeting_text : IsText own.greeting
  pub info_text : IsText own.info
  pub other_text : IsText other.greeting
  pub short : length own.greeting < bufsize
  pub fits : length (own.greeting ++ own.info) < bufsize
  pub other_fits : length (other.greeting ++ own.info) < bufsize

-- A thread that has written finds a text in buf that it can read.
pub BufInv-holds :
    (own other : Work) (a b : Thread) (buf : ℕ → ℕ)
    → Fitting own other
    → BufInv own other a b buf
    → wrote a ≡ true
    → (text : List ℕ) × Holds text buf × (length (text ++ own.info) < bufsize)
BufInv-holds own other a b buf f v e = elim (Bool-cases (wrote b)) [
  | inr g ↦ (own.greeting, v.first e g, f.fits)
  | inl g ↦ elim (v.both e g) [
    | inl k ↦ (own.greeting, k, f.fits)
    | inr k ↦ (other.greeting, k, f.other_fits)
  ]
]

pub BufInv-IsText :
    (own other : Work) (a b : Thread) (buf : ℕ → ℕ)
    → Fitting own other
    → BufInv own other a b buf
    → (text : List ℕ) → got a ≡ some text
    → IsText text
BufInv-IsText own other a b buf f v text e = elim (v.got_own text e) [
  | inl g ↦ subst IsText (sym g) (append-IsText own.greeting own.info f.greeting_text f.info_text)
  | inr (g, _, _) ↦
      subst IsText (sym g) (append-IsText other.greeting own.info f.other_text f.info_text)
]

true_false : {A : Type 0} {b : Bool} → b ≡ true → b ≡ false → A
true_false e f = absurd (cc (sym e ∙ f))

none_some : {A : Type 0} {o : Option (List ℕ)} {text : List ℕ} → o ≡ none → o ≡ some text → A
none_some e f = absurd (cc (sym e ∙ f))

module _ (calls : Calls) (own other : Work) (fitting : Fitting own other) (x y : Matrix) where
  -- An action of the first thread keeps it.
  pub Effect-BufInv :
      (a b a' : Thread) (m m' : Shared)
      → Effect calls own x y a m a' m'
      → BufInv own other a b m.buf
      → BufInv own other a' b m'.buf
  Effect-BufInv a b a' m m' (quiet same e f) v = rw same (record {
    first = λ g. v.first (sym e ∙ g);
    second = λ g h. v.second g (sym e ∙ h);
    both = λ g. v.both (sym e ∙ g);
    got_own = λ text g. v.got_own text (sym f ∙ g);
    got_other =
        λ text g. elim (v.got_other text g) [ inl h ↦ inl h | inr (h, k, l) ↦ inr (h, e ∙ k, l) ];
  })
  Effect-BufInv a b a' m m' (writes before behind nothing holds) v = record {
    first = λ e g. holds;
    second = λ e g. true_false behind g;
    both = λ e g. inl holds;
    got_own = λ text e. none_some nothing e;
    got_other =
        λ text e. elim (v.got_other text e) [ inl g ↦ inl g | inr (_, g, _) ↦ true_false g before ];
  }
  Effect-BufInv a b a' m m' (fetches same before behind gets) v = rw same (record {
    first = λ e g. v.first before g;
    second = λ e g. true_false behind g;
    both = λ e g. v.both before g;
    got_own = λ text e.
        let mine : Holds own.greeting m.buf → text ≡ own.greeting ++ own.info =
          λ k. some-injective _ _ (sym e ∙ gets own.greeting k fitting.fits) in
        elim (Bool-cases (wrote b)) [
          | inr g ↦ inl (mine (v.first before g))
          | inl g ↦ elim (v.both before g) [
            | inl k ↦ inl (mine k)
            | inr k ↦
                inr (some-injective _ _ (sym e ∙ gets other.greeting k fitting.other_fits), g, k)
          ]
        ];
    got_other =
        λ text e. elim (v.got_other text e) [ inl g ↦ inl g | inr (g, _, k) ↦ inr (g, behind, k) ];
  })
