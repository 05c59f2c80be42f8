-- ===== src/Threads/Steps.antt =====
-- Lab3: the runs of a step relation, and how a run comes to its end.
use fall_oslab.Base.{ℕ, zero, suc, ◌+◌, ◌≤◌, ◌<◌, arith, ◌⊎◌, inl, inr}

pub data Run {ℓ} {S : Type ℓ} (Step : S → S → Type ℓ) (u : S) : S → Type ℓ where
  here : Run Step u u
  next : {v w : S} → Run Step u v → Step v w → Run Step u w

pub append {ℓ} :
    {S : Type ℓ} {Step : S → S → Type ℓ} {u v w : S} → Run Step u v → Run Step v w → Run Step u w
append r here = r
append r (next s st) = next (append r s) st

pub less_left : {a b : ℕ} (c : ℕ) → a < b → a + c < b + c
less_left c h = omega arith

pub less_right : {a b : ℕ} (c : ℕ) → a < b → c + a < c + b
less_right c h = omega arith

less_zero : {a b : ℕ} → a < b → b ≤ 0 → ⊥
less_zero h g = omega arith

less_fuel : {a b f : ℕ} → a < b → b ≤ suc f → a ≤ f
less_fuel h g = omega arith

-- Where each good state is final or has a step to a good state that lowers a measure, a run goes on
-- to a final state; the measure is fuel enough.
module _ {ℓ} {S : Type ℓ} {Step : S → S → Type ℓ} (measure : S → ℕ) (Good Final : S → Type ℓ)
    (progress : (w : S)
      → Good w
      → ((w' : S) × Step w w' × Good w' × (measure w' < measure w)) ⊎ Final w) where
  finish_from :
      (fuel : ℕ) {u w : S}
      → measure w ≤ fuel
      → Run Step u w
      → Good w
      → (w' : S) × Run Step u w' × Final w'
  finish_from zero {w = w} h run g = elim (progress w g) [
    | inl (w', st, g', d) ↦ absurd (less_zero d h)
    | inr e ↦ (w, run, e)
  ]
  finish_from (suc f) {w = w} h run g = elim (progress w g) [
    | inl (w', st, g', d) ↦ finish_from f (less_fuel d h) (next run st) g'
    | inr e ↦ (w, run, e)
  ]

  pub finish : (w : S) → Good w → (w' : S) × Run Step w w' × Final w'
  finish w g = finish_from (measure w) (omega arith) here g
