-- ===== src/Mailbox/Setup/Tests.antt =====
-- A witness for the theorem on the set-ups of Lab1's programs, and the removal behind a run.
use mathlib.Core.Path.{subst}
use mathlib.Core.Option.{some-injective}
use fall_oslab.Base.{ℕ, ◌≡◌, ◌≢◌, refl, ap, Option, none, some, ◌⊎◌, inl, inr, update, eq→==, ne→==}
use fall_oslab.Mailbox.Program.{message_passing, shared_memory}
use fall_oslab.Mailbox.Setup.{
  Creation, set_created, set_exists, Objects, set_values, receiver_sems, sender_sems, sender_setup,
  receiver_setup, receiver_close, receiver_first, both_setups,
}
use fall_oslab.Mailbox.Setup.Each.{IsObjects}
use fall_oslab.Mailbox.Setup.Both.{Agree, both_setups-Agree}

-- The values of the semaphore set, if there is one; its semid is 3.
abbrev Values : Type 0
Values = Option (ℕ → ℕ)

abbrev get_set : Values → Option (ℕ × Values)
get_set none = some (3, some (λ num. 0))
get_set (some v) = some (3, some v)

abbrev new_set : Values → Creation Values
new_set none = set_created 3 (some (λ num. 0))
new_set (some v) = set_exists

abbrev old_set : Values → Option ℕ
old_set none = none
old_set (some v) = some 3

abbrev set_value : Values → (num value : ℕ) → Option Values
set_value none num value = none
set_value (some v) num value = some (some (update v num value))

abbrev value_of : Values → (num : ℕ) → ℕ
value_of none num = 0
value_of (some v) num = v num

abbrev objects : Objects Values
objects = record {
  msgget = λ o. some (1, o);
  msg_stat = λ o id. some 16384;
  msg_set = λ o id qbytes. some o;
  msg_remove = λ o id. o;
  shmget = λ o. some (2, o);
  shmat = λ o id. some (4096, o);
  memset_zero = λ o addr size. o;
  shmdt = λ o addr. o;
  shmget_old = λ o. some 2;
  shm_remove = λ o id. o;
  semget = get_set;
  semget_excl = new_set;
  semget_old = old_set;
  setval = λ o id num value. set_value o num value;
  sem_remove = λ o id. none;
}

-- A call that gives the objects as they were.
kept :
    (id id' : ℕ) (o o' : Values)
    → ◌≡◌ {A = Option (ℕ × Values)} (some (id', o)) (some (id, o'))
    → o ≡ o'
kept id id' o o' e = ap (λ r. r.1) (some-injective _ _ e)

abbrev values : Values → (semid num : ℕ) → ℕ
values o semid num = value_of o num

same_set : (o o' : Values) → o ≡ o' → (old_set o' ≡ old_set o) × (values o' ≡ values o)
same_set o o' e = subst (λ p. (old_set p ≡ old_set o) × (values p ≡ values o)) e (refl, refl)

get_set_lem :
    (o o' : Values) (id : ℕ)
    → get_set o ≡ some (id, o')
    → (old_set o' ≡ some id) × ((old_set o ≡ none) ⊎ (old_set o' ≡ old_set o))
get_set_lem none o' id e =
    subst
      (λ r. (old_set (r.1) ≡ some (r.0)) × ((old_set none ≡ none) ⊎ (old_set (r.1) ≡ old_set none)))
      (some-injective _ _ e) (refl, inl refl)
get_set_lem (some v) o' id e =
    subst
      (λ r.
        (old_set (r.1) ≡ some (r.0))
        × ((old_set (some v) ≡ none) ⊎ (old_set (r.1) ≡ old_set (some v))))
      (some-injective _ _ e) (refl, inr refl)

abbrev created_by : Creation Values → Option (ℕ × Values)
created_by (set_created id o) = some (id, o)
created_by _ = none

new_set_lem :
    (o o' : Values) (id : ℕ)
    → new_set o ≡ set_created id o'
    → (old_set o ≡ none) × (old_set o' ≡ some id)
new_set_lem none o' id e =
    (refl, subst (λ r. old_set (r.1) ≡ some (r.0)) (some-injective _ _ (ap created_by e)) refl)
new_set_lem (some v) o' id e = absurd (cc e)

old_set_lem : (o : Values) (id : ℕ) → old_set o ≡ some id → old_set o ≡ some id
old_set_lem o id e = e

set_value_lem :
    (o o' : Values) (id num value : ℕ)
    → set_value o num value ≡ some o'
    → (old_set o' ≡ old_set o)
      × (value_of o' num ≡ value)
      × ((k : ℕ) → k ≢ num → value_of o' k ≡ value_of o k)
set_value_lem none o' id num value e = absurd (cc e)
set_value_lem (some v) o' id num value e =
    subst
      (λ p.
        (old_set p ≡ some 3) × (value_of p num ≡ value) × ((k : ℕ) → k ≢ num → value_of p k ≡ v k))
      (some-injective _ _ e) (refl, rw (eq→== num num refl) refl, λ k ne. rw (ne→== k num ne) refl)

objects-IsObjects : IsObjects objects
objects-IsObjects = record {
  sem_set = old_set;
  value = values;
  msgget_keeps = λ o o' id e. same_set o o' (kept id 1 o o' e);
  msg_set_keeps = λ o o' id qbytes e. same_set o o' (some-injective _ _ e);
  shmget_keeps = λ o o' id e. same_set o o' (kept id 2 o o' e);
  shmat_keeps = λ o o' id addr e. same_set o o' (kept addr 4096 o o' e);
  memset_keeps = λ o addr size. (refl, refl);
  semget_lem = get_set_lem;
  semget_excl_lem = new_set_lem;
  semget_old_lem = old_set_lem;
  setval_lem = set_value_lem;
}

-- The values that a run has left.
abbrev stale : Values
stale = some (λ num. 5)

set_up :
    (r : Option ℕ × Option ℕ × Values) × (both_setups objects receiver_first shared_memory stale
      ≡ some r)
unfolding both_setups receiver_setup receiver_sems sender_setup sender_sems set_values
set_up = (_, refl)

both_setups-Agree_example : Agree objects objects-IsObjects set_up.0.0 set_up.0.1 set_up.0.2
both_setups-Agree_example =
    both_setups-Agree objects objects-IsObjects receiver_first shared_memory stale set_up.0.0
      set_up.0.1 set_up.0.2 set_up.1

-- The set is removed with the shared memory only.
set_removed : receiver_close objects shared_memory (some 3) 4096 stale ≡ none
unfolding receiver_close
set_removed = refl

set_stays : receiver_close objects message_passing (some 3) 1 stale ≡ stale
unfolding receiver_close
set_stays = refl
