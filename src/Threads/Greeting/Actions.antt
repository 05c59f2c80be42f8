-- ===== src/Threads/Greeting/Actions.antt =====
-- Lab3/3/3_2/3_2.c: what one action of a thread does to z, to the module's buf, and to its own text.
use mathlib.Core.Path.{subst}
use mathlib.Core.List.{append_assoc, append-nil}
use fall_oslab.Base.{
  ℕ, ◌+◌, ◌<◌, ◌≡◌, refl, sym, ap, ◌∙◌, List, [], ◌∷◌, ◌++◌, Option, none, some, Bool, true, false,
  arith, length, ◌⊎◌, inl, inr, Option-cases,
}
use fall_oslab.Mailbox.Text.{c_string}
use fall_oslab.Mailbox.Lines.{fgets_line, fgets_rest, fgets_rest-lt}
use fall_oslab.Proc.Print.{IsText}
use fall_oslab.Proc.Hello.{bufsize}
use fall_oslab.Threads.Matrix.{Matrix, Bounds, LoopPc, for_i, loop}
use fall_oslab.Threads.Matrix.Loop.{rank, Fits, Loaded, Moves, Goes, loop-Goes}
use fall_oslab.Threads.Greeting.{
  Calls, Work, Shared, Thread, looping, opening, writing, closing, fetching, printing, returned,
  thread,
}
use fall_oslab.Threads.Greeting.Texts.{
  Holds, IsText-behind, printed-fgets_rest, Works, fetch-Holds, mywrite-Holds,
}

-- Where a thread stands in its loops.
abbrev pub position : Bounds → Thread → LoopPc
position b (looping p) = p
position b _ = for_i b.row_to

abbrev pub wrote : Thread → Bool
wrote (looping p) = false
wrote opening = false
wrote writing = false
wrote _ = true

-- The text that a thread has got from the proc file.
abbrev pub got : Thread → Option (List ℕ)
got (printing rest printed) = some (printed ++ rest)
got (returned printed) = some printed
got _ = none

-- The actions that a thread has left at most; a text that it reads is shorter than bufsize.
abbrev pub actions : Bounds → Thread → ℕ
actions b (looping p) = rank b p + 2053
actions b opening = 2052
actions b writing = 2051
actions b closing = 2050
actions b fetching = 2049
actions b (printing rest printed) = length rest + 1
actions b (returned printed) = 0

module _ (calls : Calls) (work : Work) (x y : Matrix) where
  -- What an action does to buf and to the thread's text.
  pub data Effect (t : Thread) (m : Shared) (t' : Thread) (m' : Shared) : Type 0 where
    quiet : m'.buf ≡ m.buf → wrote t' ≡ wrote t → got t' ≡ got t → Effect t m t' m'
    writes :
        wrote t ≡ false
        → wrote t' ≡ true
        → got t' ≡ none
        → Holds work.greeting m'.buf
        → Effect t m t' m'
    fetches :
        m'.buf ≡ m.buf
        → wrote t ≡ true
        → wrote t' ≡ true
        → ((text : List ℕ)
            → Holds text m.buf
            → length (text ++ work.info) < bufsize
            → got t' ≡ some (text ++ work.info))
        → Effect t m t' m'

  pub record Acts (t : Thread) (m : Shared) (t' : Thread) (m' : Shared) : Type 0 where
    pub effect : Effect t m t' m'
    pub loops :
        ((position work.bounds t' ≡ position work.bounds t) × (m'.z ≡ m.z))
        ⊎ (loop work.bounds x y (position work.bounds t) m.z ≡ some (position work.bounds t', m'.z))
    pub less : actions work.bounds t' < actions work.bounds t

  unfoldable pub Does : Thread → Shared → Option (Thread × Shared) → Type 0
  Does t m none = (printed : List ℕ) × (t ≡ returned printed)
  Does t m (some (t', m')) = Acts t m t' m'

  less_more : {a b : ℕ} (c : ℕ) → a < b → a + c < b + c
  less_more c h = omega arith

  module _ (works : Works calls) (opens : work.opens ≡ true) (is_text : IsText work.greeting)
      (short : length work.greeting < bufsize) where
    -- A thread has returned, or its next action is one of these, if the text in buf is short when the
    -- thread has written, and its own has no NUL.
    pub thread-Does :
        (t : Thread) (m : Shared)
        → Fits work.bounds (position work.bounds t)
        → Loaded (position work.bounds t) m.z
        → (wrote t ≡ true
            → (text : List ℕ) × Holds text m.buf × (length (text ++ work.info) < bufsize))
        → ((text : List ℕ) → got t ≡ some text → IsText text)
        → Does t m (thread calls work x y t m)
    unfolding thread Does
    thread-Does (looping p) m f l h g =
        let goes = loop-Goes work.bounds x y p m.z f l in
        elim (Option-cases (loop work.bounds x y p m.z)) [
          | inl e ↦
              let at_end : p ≡ for_i work.bounds.row_to =
                subst (Goes work.bounds x y p m.z) e goes in
              rw (Does, thread, e)
                (record {
                  effect = quiet refl refl refl;
                  loops = inl (sym at_end, refl);
                  less = omega arith;
                })
          | inr (q, e) ↦
              let moves : Moves work.bounds x y p m.z q.0 q.1 =
                subst (Goes work.bounds x y p m.z) e goes in
              rw (Does, thread, e)
                (record {
                  effect = quiet refl refl refl;
                  loops = inr e;
                  less = less_more 2053 moves.less;
                })
        ]
    thread-Does opening m f l h g =
        rw (Does, thread, opens)
          (record { effect = quiet refl refl refl; loops = inl (refl, refl); less = omega arith })
    thread-Does writing m f l h g = record {
      effect = writes refl refl refl (mywrite-Holds calls works work.greeting m.buf is_text short);
      loops = inl (refl, refl);
      less = omega arith;
    }
    thread-Does closing m f l h g = record {
      effect = quiet refl refl refl;
      loops = inl (refl, refl);
      less = omega arith;
    }
    thread-Does fetching m f l h g =
        let (text, holds, fits) = h refl in
        let fetched = fetch-Holds calls works work.info text m.buf holds fits in
        record {
          effect =
              fetches refl refl refl
                (λ s hs fs. ap some (fetch-Holds calls works work.info s m.buf hs fs));
          loops = inl (refl, refl);
          less = omega (arith, ap length fetched);
        }
    thread-Does (printing [] printed) m f l h g = record {
      effect = quiet refl refl (ap some (sym (append-nil printed)));
      loops = inl (refl, refl);
      less = omega arith;
    }
    thread-Does (printing (c ∷ cs) printed) m f l h g = record {
      effect = quiet refl refl (
          ap some (
            append_assoc printed (c_string (fgets_line 49 (c ∷ cs) ++ (0 ∷ [])))
              (fgets_rest 49 (c ∷ cs))
            ∙ ap (◌++◌ printed)
                (printed-fgets_rest 49 (c ∷ cs) (IsText-behind printed (c ∷ cs) (g _ refl)))));
      loops = inl (refl, refl);
      less = omega (arith, fgets_rest-lt 48 c cs);
    }
    thread-Does (returned printed) m f l h g = (printed, refl)
