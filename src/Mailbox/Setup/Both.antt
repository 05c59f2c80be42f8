-- ===== src/Mailbox/Setup/Both.antt =====
-- Lab1: the semaphores when both programs have been set up.
use mathlib.Core.Path.{subst}
use fall_oslab.Base.{ℕ, ◌≡◌, sym, ap, ◌∙◌, Option, none, some, ◌⊎◌, inl, inr}
use fall_oslab.Mailbox.Program.{Mode}
use fall_oslab.Mailbox.Setup.{
  Objects, Setup, exits, ready, sender_setup, receiver_setup, Order, sender_first, receiver_first,
  second_setup, swapped, both_setups,
}
use fall_oslab.Mailbox.Setup.Each.{
  IsObjects, Initial, Ready, SenderReady, Kept, ReceiverReady, Ready-map, sender_setup-Ready,
  receiver_setup-Ready,
}

module _ {O : Type 0} (objects : Objects O) (law : IsObjects objects) where
  -- Both programs have the set, or the receiver has none, and its values are those of the start.
  abbrev pub Agree : Option ℕ → Option ℕ → O → Type 0
  Agree s r o =
      (i : ℕ) × (s ≡ some i)
      × ((r ≡ some i) ⊎ (r ≡ none))
      × (law.value o i 0 ≡ 1)
      × (law.value o i 1 ≡ 0)

  receiver_behind :
      (s r : Option ℕ) (o o' old : O)
      → SenderReady objects law (law.sem_set old) s o
      → ReceiverReady objects law o r o'
      → Agree s r o'
  unfolding SenderReady ReceiverReady Initial Kept
  receiver_behind s r o o' old (i, e, (set, empty, full), _) v = elim v [
    | inl (f, (_, same)) ↦ (i, e, inr f, ap (λ v. v i 0) same ∙ empty, ap (λ v. v i 1) same ∙ full)
    | inr (inl (k, f, g, (_, same))) ↦
        (i, e, inl (f ∙ sym g ∙ set), ap (λ v. v i 0) same ∙ empty, ap (λ v. v i 1) same ∙ full)
    | inr (inr (k, f, g, h)) ↦ absurd (cc (sym g ∙ set))
  ]

  found_same :
      (o : O) (i k : ℕ)
      → law.sem_set o ≡ some k
      → (law.sem_set o ≡ none) ⊎ (law.sem_set o ≡ some i)
      → some k ≡ some i
  found_same o i k e (inl h) = absurd (cc (sym h ∙ e))
  found_same o i k e (inr h) = sym e ∙ h

  sender_behind :
      (s r : Option ℕ) (o o' old : O)
      → ReceiverReady objects law old r o
      → SenderReady objects law (law.sem_set o) s o'
      → Agree s r o'
  unfolding SenderReady ReceiverReady Initial Kept
  sender_behind s r o o' old v (i, e, (set, empty, full), before) = elim v [
    | inl (f, _) ↦ (i, e, inr f, empty, full)
    | inr (inl (k, f, g, (same, _))) ↦
        (i, e, inl (f ∙ found_same o i k (same ∙ g) before), empty, full)
    | inr (inr (k, f, g, h)) ↦ (i, e, inl (f ∙ found_same o i k h before), empty, full)
  ]

  -- What two set-ups come to, if neither exits.
  After : (Option ℕ → Option ℕ → O → Type 0) → Option (Option ℕ × Option ℕ × O) → Type 0
  After P none = Unit
  After P (some (first, second, o)) = P first second o

  second_setup-Ready :
      (P : Option ℕ → Option ℕ → O → Type 0) (first : Option ℕ) (storage : ℕ) (o : O) (w : Setup O)
      → Ready objects law (P first) w
      → After P (second_setup (λ o. w) (ready first storage o))
  unfolding After Ready
  second_setup-Ready P first storage o (exits o') h = tt
  second_setup-Ready P first storage o (ready second storage' o') h = h

  second_setup-After :
      (P : Option ℕ → O → Type 0) (Q : Option ℕ → Option ℕ → O → Type 0) (u : Setup O)
      (second : O → Setup O)
      → Ready objects law P u
      → ((semid : Option ℕ) (o : O) → P semid o → Ready objects law (Q semid) (second o))
      → After Q (second_setup second u)
  unfolding After Ready
  second_setup-After P Q (exits o) second h g = tt
  second_setup-After P Q (ready semid storage o) second h g =
      second_setup-Ready Q semid storage o (second o) (g semid o h)

  swapped-After :
      (P : Option ℕ → Option ℕ → O → Type 0) (u : Option (Option ℕ × Option ℕ × O))
      → After (λ r s o. P s r o) u
      → After P (swapped u)
  unfolding After
  swapped-After P none h = tt
  swapped-After P (some (r, s, o)) h = h

  both_setups-After :
      (order : Order) (mode : Mode) (o : O) → After Agree (both_setups objects order mode o)
  unfolding both_setups
  both_setups-After sender_first mode o =
      second_setup-After (SenderReady objects law (law.sem_set o)) Agree
        (sender_setup objects mode o) (receiver_setup objects mode)
        (sender_setup-Ready objects law mode o)
        (λ s o1 h.
          Ready-map objects law (ReceiverReady objects law o1) (Agree s)
            (receiver_setup objects mode o1) (λ r o2 v. receiver_behind s r o1 o2 o h v)
            (receiver_setup-Ready objects law mode o1))
  both_setups-After receiver_first mode o =
      swapped-After Agree (second_setup (sender_setup objects mode) (receiver_setup objects mode o))
        (second_setup-After (ReceiverReady objects law o) (λ r s o. Agree s r o)
          (receiver_setup objects mode o) (sender_setup objects mode)
          (receiver_setup-Ready objects law mode o)
          (λ r o1 h.
            Ready-map objects law (SenderReady objects law (law.sem_set o1)) (λ s o. Agree s r o)
              (sender_setup objects mode o1) (λ s o2 v. sender_behind s r o1 o2 o h v)
              (sender_setup-Ready objects law mode o1)))

  -- Both programs are set up, one after the other and either one first, on any objects that there are
  -- from earlier runs, and neither exits. Then the sender has a semaphore set, the receiver has the
  -- same set or none, and the set's values are those for the first message: empty is 1 and full is 0.
  pub both_setups-Agree :
      (order : Order) (mode : Mode) (o : O) (s r : Option ℕ) (o' : O)
      → both_setups objects order mode o ≡ some (s, r, o')
      → Agree s r o'
  unfolding After
  both_setups-Agree order mode o s r o' e = subst (After Agree) e (both_setups-After order mode o)
