-- ===== src/Threads/Counter/Finish.antt =====
-- Lab3/1/1_1/1_1.c: the threads end, and the count is 20000.
use mathlib.Core.Path.{subst}
use fall_oslab.Base.{ℕ, ◌+◌, ◌≤◌, ◌<◌, ◌≡◌, ap, true, arith, ◌⊎◌, inl, inr, Option-cases}
use fall_oslab.Threads.Steps.{Run, here, next, append, finish, less_left, less_right}
use fall_oslab.Threads.Lock.{SpinLock, IsSpinLock}
use fall_oslab.Threads.Counter.{
  Thread, locking, returned, Shared, thread, Process, Step, by_thread1, by_thread2, created,
}
use fall_oslab.Threads.Counter.Actions.{
  added, holding, bit, bit-le, actions, Inv, Inv-swap, Acts, thread-Acts,
}

module _ {L : Type 0} (spin : SpinLock L) (law : IsSpinLock spin) where
  abbrev Good : Process spin → Type 0
  Good w = Inv spin law w.t1 w.t2 w.shared

  -- The invariant beside the other thread, and its action.
  other_Acts :
      (w : Process spin) → Good w → Acts spin law w.t2 w.t1 w.shared (thread spin w.t2 w.shared)
  other_Acts w v = thread-Acts spin law w.t2 w.t1 w.shared (Inv-swap spin law w.t1 w.t2 w.shared v)

  Step-Inv : {w w' : Process spin} → Step spin w w' → Good w → Good w'
  unfolding Acts
  Step-Inv {w} (by_thread1 t m e) v =
      (subst (Acts spin law w.t1 w.t2 w.shared) e (thread-Acts spin law w.t1 w.t2 w.shared v)).0
  Step-Inv {w} (by_thread2 t m e) v =
      Inv-swap spin law t w.t1 m (subst (Acts spin law w.t2 w.t1 w.shared) e (other_Acts w v)).0

  Run-Inv : {w : Process spin} → Run (Step spin) (created spin) w → Good w
  Run-Inv here = record {
    total = omega arith;
    held = omega (arith, ap bit law.init_free);
    local = tt;
    local_other = tt;
  }
  Run-Inv (next run step) = Step-Inv step (Run-Inv run)

  abbrev Final : Process spin → Type 0
  Final w = (w.t1 ≡ returned) × (w.t2 ≡ returned)

  abbrev left : Process spin → ℕ
  left w = actions w.t1 + actions w.t2

  abbrev Advances : Process spin → Type 0
  Advances w = (w' : Process spin) × Step spin w w' × Good w' × (left w' < left w)

  waits :
      (t : Thread) (m : Shared spin)
      → (t ≡ returned) ⊎ (t ≡ locking) × (law.is_locked m.lock ≡ true)
      → (t ≡ returned) ⊎ (t ≡ locking)
  waits t m (inl e) = inl e
  waits t m (inr (e, _)) = inr e

  -- If both threads are at a stop, none of them waits.
  no_deadlock :
      (t u : Thread) (m : Shared spin)
      → Inv spin law t u m
      → (t ≡ returned) ⊎ (t ≡ locking) × (law.is_locked m.lock ≡ true)
      → (u ≡ returned) ⊎ (u ≡ locking)
      → t ≡ returned
  no_deadlock t u m v (inl e) s = e
  no_deadlock t u m v (inr (e, taken)) (inl f) =
      absurd (omega (arith, v.held, ap holding e, ap holding f, ap bit taken))
  no_deadlock t u m v (inr (e, taken)) (inr f) =
      absurd (omega (arith, v.held, ap holding e, ap holding f, ap bit taken))

  progress : (w : Process spin) → Good w → Advances w ⊎ Final w
  unfolding Acts
  progress w v = elim (Option-cases (thread spin w.t1 w.shared)) [
    | inr ((t, m), e) ↦
        let (inv, less) =
          subst (Acts spin law w.t1 w.t2 w.shared) e (thread-Acts spin law w.t1 w.t2 w.shared v) in
        inl (_, by_thread1 t m e, inv, less_left _ less)
    | inl e ↦ elim (Option-cases (thread spin w.t2 w.shared)) [
      | inr ((t, m), f) ↦
          let (inv, less) = subst (Acts spin law w.t2 w.t1 w.shared) f (other_Acts w v) in
          inl (_, by_thread2 t m f, Inv-swap spin law t w.t1 m inv, less_right _ less)
      | inl f ↦
          let stop1 =
            subst (Acts spin law w.t1 w.t2 w.shared) e
              (thread-Acts spin law w.t1 w.t2 w.shared v) in
          let stop2 = subst (Acts spin law w.t2 w.t1 w.shared) f (other_Acts w v) in
          inr (
            no_deadlock w.t1 w.t2 w.shared v stop1 (waits w.t2 w.shared stop2),
            no_deadlock w.t2 w.t1 w.shared (Inv-swap spin law w.t1 w.t2 w.shared v) stop2
                (waits w.t1 w.shared stop1),
          )
    ]
  ]

  -- In every state that the two threads reach, in any order of their actions, at most one of them is
  -- between lock and unlock, and from there they go on to their ends, where the count is 20000.
  pub count_finishes :
      {w : Process spin}
      → Run (Step spin) (created spin) w
      → (holding w.t1 + holding w.t2 ≤ 1)
        × ((w' : Process spin) × Run (Step spin) w w'
            × (w'.t1 ≡ returned)
            × (w'.t2 ≡ returned)
            × (w'.shared.a ≡ 20000))
  count_finishes {w} run =
      let v = Run-Inv run in
      let (w', more, (e, f)) = finish left Good Final progress w v in
      let v' = Run-Inv (append run more) in
      (
        omega (arith, v.held, bit-le (law.is_locked w.shared.lock)),
        (w', more, e, f, omega (arith, v'.total, ap added e, ap added f)),
      )
