-- ===== src/Threads/Greeting/Finish.antt =====
-- Lab3/3/3_2/3_2.c with two threads: how it ends.
use mathlib.Core.Path.{subst}
use fall_oslab.Base.{
  ℕ, ◌+◌, ◌^◌, ◌<◌, ◌≡◌, refl, sym, ap, ◌∙◌, List, ◌++◌, true, arith, length, get_or, ◌⊎◌, inl, inr,
  Option-cases, add32,
}
use fall_oslab.Proc.Print.{IsText}
use fall_oslab.Proc.Hello.{bufsize}
use fall_oslab.Threads.Steps.{Run, here, next, append, finish, less_left, less_right}
use fall_oslab.Threads.Matrix.{Matrix, matrix_row_x, product}
use fall_oslab.Threads.Matrix.Inv.{Inv, Inv-start}
use fall_oslab.Threads.Matrix.Rows
use fall_oslab.Threads.Matrix.Rows.{bounds1, bounds2}
use fall_oslab.Threads.Greeting.{
  Calls, Work, Shared, Thread, returned, thread, Process, Step, by_thread1, by_thread2, greeting1,
  greeting2, work1, work2, created,
}
use fall_oslab.Threads.Greeting.Texts.{has_no_nul-IsText, Works}
use fall_oslab.Threads.Greeting.Actions.{position, got, actions, Acts, Does, thread-Does}
use fall_oslab.Threads.Greeting.Inv.{
  BufInv, BufInv-swap, Fitting, BufInv-holds, BufInv-IsText, Effect-BufInv,
}

differ : greeting1 ≡ greeting2 → ⊥
differ e = let digits : ◌≡◌ {A = ℕ} b'1' b'2' = ap (λ t. get_or t 7 0) e in absurd (omega arith)

module _ (calls : Calls) (works : Works calls) (info1 info2 : List ℕ) (text1 : IsText info1)
    (text2 : IsText info2) (fits1 : 21 + length info1 < bufsize)
    (fits2 : 21 + length info2 < bufsize) where
  abbrev first : Work
  first = work1 info1 true

  abbrev second : Work
  second = work2 info2 true

  Fitting1 : Fitting first second
  Fitting1 = record {
    greeting_text = has_no_nul-IsText greeting1 refl;
    info_text = text1;
    other_text = has_no_nul-IsText greeting2 refl;
    short = omega arith;
    fits = omega arith;
    other_fits = omega arith;
  }

  Fitting2 : Fitting second first
  Fitting2 = record {
    greeting_text = Fitting1.other_text;
    info_text = text2;
    other_text = Fitting1.greeting_text;
    short = omega arith;
    fits = omega arith;
    other_fits = omega arith;
  }

  module _ (x y z0 : Matrix) where
    abbrev rows : Process → Rows.Process
    rows w = record {
      t1 = position (bounds1 1234) w.t1;
      t2 = position (bounds2 1234) w.t2;
      z = w.shared.z;
    }

    record Good (w : Process) : Type 0 where
      loops : Inv x y z0 (bounds1 1234) (bounds2 1234) ((rows w).t1) ((rows w).t2) w.shared.z
      texts : BufInv first second w.t1 w.t2 w.shared.buf

    Does1 :
        (w : Process)
        → Good w
        → Does calls first x y w.t1 w.shared (thread calls first x y w.t1 w.shared)
    Does1 w v =
        thread-Does calls first x y works refl Fitting1.greeting_text Fitting1.short w.t1 w.shared
          v.loops.fits v.loops.loaded
          (BufInv-holds first second w.t1 w.t2 w.shared.buf Fitting1 v.texts)
          (BufInv-IsText first second w.t1 w.t2 w.shared.buf Fitting1 v.texts)

    Does2 :
        (w : Process)
        → Good w
        → Does calls second x y w.t2 w.shared (thread calls second x y w.t2 w.shared)
    Does2 w v =
        let texts = BufInv-swap first second w.t1 w.t2 w.shared.buf v.texts in
        thread-Does calls second x y works refl Fitting2.greeting_text Fitting2.short w.t2 w.shared
          v.loops.fits2 v.loops.loaded2
          (BufInv-holds second first w.t2 w.t1 w.shared.buf Fitting2 texts)
          (BufInv-IsText second first w.t2 w.t1 w.shared.buf Fitting2 texts)

    Acts1-Good :
        (w : Process) (t : Thread) (m : Shared)
        → Acts calls first x y w.t1 w.shared t m
        → Good w
        → Good (record { t1 = t; t2 = w.t2; shared = m })
    Acts1-Good w t m acts v = record {
      loops = elim acts.loops [
        | inl (p, e) ↦ rw (p, e) v.loops
        | inr e ↦ Rows.Step-Inv 1234 x y z0 {w = rows w} (Rows.by_thread1 _ _ e) v.loops
      ];
      texts =
          Effect-BufInv calls first second Fitting1 x y w.t1 w.t2 t w.shared m acts.effect v.texts;
    }

    Acts2-Good :
        (w : Process) (t : Thread) (m : Shared)
        → Acts calls second x y w.t2 w.shared t m
        → Good w
        → Good (record { t1 = w.t1; t2 = t; shared = m })
    Acts2-Good w t m acts v = record {
      loops = elim acts.loops [
        | inl (p, e) ↦ rw (p, e) v.loops
        | inr e ↦ Rows.Step-Inv 1234 x y z0 {w = rows w} (Rows.by_thread2 _ _ e) v.loops
      ];
      texts = BufInv-swap second first t w.t1 m.buf (
          Effect-BufInv calls second first Fitting2 x y w.t2 w.t1 t w.shared m acts.effect
            (BufInv-swap first second w.t1 w.t2 w.shared.buf v.texts));
    }

    Step-Good : {w w' : Process} → Step calls first second x y w w' → Good w → Good w'
    unfolding Does
    Step-Good {w} (by_thread1 t m e) v =
        Acts1-Good w t m (subst (Does calls first x y w.t1 w.shared) e (Does1 w v)) v
    Step-Good {w} (by_thread2 t m e) v =
        Acts2-Good w t m (subst (Does calls second x y w.t2 w.shared) e (Does2 w v)) v

    Run-Good :
        (buf : ℕ → ℕ) {w : Process}
        → ((p q : ℕ) → z0 p q < 2 ^ 32)
        → Run (Step calls first second x y) (created z0 buf) w
        → Good w
    Run-Good buf ints here = record {
      loops =
          Inv-start x y z0 (bounds1 1234) (bounds2 1234) ints (omega arith, omega arith)
            (omega arith, omega arith);
      texts = record {
        first = λ e f. absurd (cc e);
        second = λ e f. absurd (cc e);
        both = λ e f. absurd (cc e);
        got_own = λ text e. absurd (cc e);
        got_other = λ text e. absurd (cc e);
      };
    }
    Run-Good buf ints (next run step) = Step-Good step (Run-Good buf ints run)

    abbrev Final : Process → Type 0
    Final w =
        ((printed : List ℕ) × (w.t1 ≡ returned printed))
        × ((printed : List ℕ) × (w.t2 ≡ returned printed))

    -- The actions that both threads have left at most.
    abbrev left : Process → ℕ
    left w = actions (bounds1 1234) w.t1 + actions (bounds2 1234) w.t2

    progress :
        (w : Process)
        → Good w
        → ((w' : Process) × Step calls first second x y w w' × Good w' × (left w' < left w))
          ⊎ Final w
    unfolding Does
    progress w v = elim (Option-cases (thread calls first x y w.t1 w.shared)) [
      | inr ((t, m), e) ↦
          let acts = subst (Does calls first x y w.t1 w.shared) e (Does1 w v) in
          inl (_, by_thread1 t m e, Acts1-Good w t m acts v, less_left _ acts.less)
      | inl e ↦ elim (Option-cases (thread calls second x y w.t2 w.shared)) [
        | inr ((t, m), f) ↦
            let acts = subst (Does calls second x y w.t2 w.shared) f (Does2 w v) in
            inl (_, by_thread2 t m f, Acts2-Good w t m acts v, less_right _ acts.less)
        | inl f ↦ inr (
          subst (Does calls first x y w.t1 w.shared) e (Does1 w v),
          subst (Does calls second x y w.t2 w.shared) f (Does2 w v),
        )
      ]
    ]

    outcome :
        (w : Process) (p1 p2 : List ℕ)
        → Good w
        → w.t1 ≡ returned p1
        → w.t2 ≡ returned p2
        → ((p1 ≡ greeting1 ++ info1) × (p2 ≡ greeting2 ++ info2))
          ⊎ ((p1 ≡ greeting2 ++ info1) × (p2 ≡ greeting2 ++ info2))
          ⊎ ((p1 ≡ greeting1 ++ info1) × (p2 ≡ greeting1 ++ info2))
    outcome w p1 p2 v e f = elim (v.texts.got_own p1 (ap got e)) [
      | inl g ↦ elim (v.texts.got_other p2 (ap got f)) [
        | inl h ↦ inl (g, h)
        | inr (h, _, _) ↦ inr (inr (g, h))
      ]
      | inr (g, _, k) ↦ elim (v.texts.got_other p2 (ap got f)) [
        | inl h ↦ inr (inl (g, h))
        | inr (_, _, l) ↦ absurd (differ (sym l ∙ k))
      ]
    ]

    -- Both opens and all copies succeed, and no thread's line has a NUL or is too long for the module's
    -- buffers. From every state that the two threads reach, in any order of their actions, they go on
    -- to their ends. Then each element of z is its first value and the element of the product, as 32
    -- bits, and each thread has printed a greeting and its own line behind it: its own greeting, or
    -- that of the other thread, but not both that of the other.
    pub greetings_finish :
        (buf : ℕ → ℕ) {w : Process}
        → ((p q : ℕ) → z0 p q < 2 ^ 32)
        → Run (Step calls (work1 info1 true) (work2 info2 true) x y) (created z0 buf) w
        → (w' : Process) × (p1 : List ℕ) × (p2 : List ℕ) × Run
            (Step calls (work1 info1 true) (work2 info2 true) x y)
            w
            w'
          × (w'.t1 ≡ returned p1)
          × (w'.t2 ≡ returned p2)
          × ((p q : ℕ)
              → p < matrix_row_x
              → q < 1234
              → w'.shared.z p q ≡ add32 (z0 p q) (product x y p q))
          × (((p1 ≡ greeting1 ++ info1) × (p2 ≡ greeting2 ++ info2))
              ⊎ ((p1 ≡ greeting2 ++ info1) × (p2 ≡ greeting2 ++ info2))
              ⊎ ((p1 ≡ greeting1 ++ info1) × (p2 ≡ greeting1 ++ info2)))
    greetings_finish buf {w} ints run =
        let (w', more, ((p1, e), (p2, f))) =
          finish left Good Final progress w (Run-Good buf ints run) in
        let v = Run-Good buf ints (append run more) in
        (
          w',
          p1,
          p2,
          more,
          e,
          f,
          Rows.Inv-product 1234 x y z0 {w = rows w'} v.loops (ap (position (bounds1 1234)) e)
              (ap (position (bounds2 1234)) f),
          outcome w' p1 p2 v e f,
        )
