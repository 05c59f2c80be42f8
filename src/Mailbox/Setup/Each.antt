-- ===== src/Mailbox/Setup/Each.antt =====
-- Lab1: what the set-up of either program makes of the semaphores.
use mathlib.Core.Path.{subst}
use fall_oslab.Base.{
  ℕ, ◌≡◌, ◌≢◌, refl, sym, ◌∙◌, Option, none, some, ◌⊎◌, inl, inr, Option-cases, arith,
}
use fall_oslab.Mailbox.Program.{Mode, message_passing, shared_memory}
use fall_oslab.Mailbox.Setup.{
  Creation, set_created, set_exists, set_refused, Objects, Setup, exits, ready, set_values,
  sender_sems, receiver_sems, sender_setup, receiver_setup,
}

-- What the manual pages say of the semaphore set with the programs' key: its semid, if there is one,
-- and its values. The calls on the queue and the shared memory leave it alone; semget finds the set
-- that is there, or makes one, with IPC_EXCL only if there is none.
pub record IsObjects {O : Type 0} (objects : Objects O) : Type 0 where
  pub sem_set : O → Option ℕ
  pub value : O → (semid num : ℕ) → ℕ
  pub msgget_keeps :
      (o o' : O) (id : ℕ)
      → objects.msgget o ≡ some (id, o')
      → (sem_set o' ≡ sem_set o) × (value o' ≡ value o)
  pub msg_set_keeps :
      (o o' : O) (id qbytes : ℕ)
      → objects.msg_set o id qbytes ≡ some o'
      → (sem_set o' ≡ sem_set o) × (value o' ≡ value o)
  pub shmget_keeps :
      (o o' : O) (id : ℕ)
      → objects.shmget o ≡ some (id, o')
      → (sem_set o' ≡ sem_set o) × (value o' ≡ value o)
  pub shmat_keeps :
      (o o' : O) (id addr : ℕ)
      → objects.shmat o id ≡ some (addr, o')
      → (sem_set o' ≡ sem_set o) × (value o' ≡ value o)
  pub memset_keeps :
      (o : O) (addr size : ℕ)
      → (sem_set (objects.memset_zero o addr size) ≡ sem_set o)
        × (value (objects.memset_zero o addr size) ≡ value o)
  pub semget_lem :
      (o o' : O) (id : ℕ)
      → objects.semget o ≡ some (id, o')
      → (sem_set o' ≡ some id) × ((sem_set o ≡ none) ⊎ (sem_set o' ≡ sem_set o))
  pub semget_excl_lem :
      (o o' : O) (id : ℕ)
      → objects.semget_excl o ≡ set_created id o'
      → (sem_set o ≡ none) × (sem_set o' ≡ some id)
  pub semget_old_lem : (o : O) (id : ℕ) → objects.semget_old o ≡ some id → sem_set o ≡ some id
  pub setval_lem :
      (o o' : O) (id num v : ℕ)
      → objects.setval o id num v ≡ some o'
      → (sem_set o' ≡ sem_set o)
        × (value o' id num ≡ v)
        × ((k : ℕ) → k ≢ num → value o' id k ≡ value o id k)

Creation-cases :
    {O : Type 0} (c : Creation O)
    → ((semid : ℕ) × (o : O) × (c ≡ set_created semid o)) ⊎ (c ≡ set_exists) ⊎ (c ≡ set_refused)
Creation-cases (set_created semid o) = inl (semid, o, refl)
Creation-cases set_exists = inr (inl refl)
Creation-cases set_refused = inr (inr refl)

module _ {O : Type 0} (objects : Objects O) (law : IsObjects objects) where
  -- The set exists with this semid, and its values are those of the first message.
  unfoldable pub Initial : ℕ → O → Type 0
  Initial i o = (law.sem_set o ≡ some i) × (law.value o i 0 ≡ 1) × (law.value o i 1 ≡ 0)

  -- What a set-up comes to, if it does not exit.
  unfoldable pub Ready : (Option ℕ → O → Type 0) → Setup O → Type 0
  Ready P (exits o) = Unit
  Ready P (ready semid storage o) = P semid o

  unfoldable pub SenderReady : Option ℕ → Option ℕ → O → Type 0
  SenderReady old semid o =
      (i : ℕ) × (semid ≡ some i) × Initial i o × ((old ≡ none) ⊎ (old ≡ some i))

  set_values-Ready :
      (semid storage : ℕ) (o : O) (old : Option ℕ)
      → law.sem_set o ≡ some semid
      → (old ≡ none) ⊎ (old ≡ some semid)
      → Ready (SenderReady old) (set_values objects semid storage o)
  unfolding set_values Ready SenderReady Initial
  set_values-Ready semid storage o old e h = elim (Option-cases (objects.setval o semid 0 1)) [
    | inl f ↦ rw (Ready, set_values, f) tt
    | inr (o1, f) ↦ elim (Option-cases (objects.setval o1 semid 1 0)) [
      | inl g ↦ rw (Ready, set_values, f, g) tt
      | inr (o2, g) ↦
          let (set1, empty, _) = law.setval_lem o o1 semid 0 1 f in
          let (set2, full, other) = law.setval_lem o1 o2 semid 1 0 g in
          rw (Ready, set_values, f, g)
            (semid, refl, (set2 ∙ set1 ∙ e, other 0 (omega arith) ∙ empty, full), h)
    ]
  ]

  sender_sems-Ready :
      (storage : ℕ) (o : O) → Ready (SenderReady (law.sem_set o)) (sender_sems objects storage o)
  unfolding sender_sems Ready
  sender_sems-Ready storage o = elim (Option-cases (objects.semget o)) [
    | inl e ↦ rw (Ready, sender_sems, e) tt
    | inr ((semid, o1), e) ↦
        let (set, before) = law.semget_lem o o1 semid e in
        rw (Ready, sender_sems, e)
          (set_values-Ready semid storage o1 (law.sem_set o) set
            (elim before [ inl h ↦ inl h | inr h ↦ inr (sym h ∙ set) ]))
  ]

  unfoldable pub Kept : O → O → Type 0
  Kept o o' = (law.sem_set o' ≡ law.sem_set o) × (law.value o' ≡ law.value o)

  pub sender_setup-Ready :
      (mode : Mode) (o : O) → Ready (SenderReady (law.sem_set o)) (sender_setup objects mode o)
  unfolding sender_setup Ready
  sender_setup-Ready message_passing o = elim (Option-cases (objects.msgget o)) [
    | inl e ↦ rw (Ready, sender_setup, e) tt
    | inr ((msqid, o1), e) ↦ elim (Option-cases (objects.msg_stat o1 msqid)) [
      | inl f ↦ rw (Ready, sender_setup, e, f) tt
      | inr (qbytes, f) ↦ elim (Option-cases (objects.msg_set o1 msqid 1024)) [
        | inl g ↦ rw (Ready, sender_setup, e, f, g) tt
        | inr (o2, g) ↦
            let same =
              (law.msg_set_keeps o1 o2 msqid 1024 g).0 ∙ (law.msgget_keeps o o1 msqid e).0 in
            rw (sender_setup, e, f, g)
              (subst (λ old. Ready (SenderReady old) (sender_sems objects msqid o2)) same
                (sender_sems-Ready msqid o2))
      ]
    ]
  ]
  sender_setup-Ready shared_memory o = elim (Option-cases (objects.shmget o)) [
    | inl e ↦ rw (Ready, sender_setup, e) tt
    | inr ((shmid, o1), e) ↦ elim (Option-cases (objects.shmat o1 shmid)) [
      | inl f ↦ rw (Ready, sender_setup, e, f) tt
      | inr ((addr, o2), f) ↦
          let o3 = objects.memset_zero o2 addr 1024 in
          let same =
            (law.memset_keeps o2 addr 1024).0
            ∙ (law.shmat_keeps o1 o2 shmid addr f).0
            ∙ (law.shmget_keeps o o1 shmid e).0 in
          rw (sender_setup, e, f)
            (subst (λ old. Ready (SenderReady old) (sender_sems objects addr o3)) same
              (sender_sems-Ready addr o3))
    ]
  ]

  -- The receiver has no set, has found one, or has made one.
  unfoldable pub ReceiverReady : O → Option ℕ → O → Type 0
  ReceiverReady o semid o' =
      ((semid ≡ none) × Kept o o')
      ⊎ ((i : ℕ) × (semid ≡ some i) × (law.sem_set o ≡ some i) × Kept o o')
      ⊎ ((i : ℕ) × (semid ≡ some i) × (law.sem_set o ≡ none) × (law.sem_set o' ≡ some i))

  pub Ready-map :
      (P Q : Option ℕ → O → Type 0) (u : Setup O)
      → ((semid : Option ℕ) (o : O) → P semid o → Q semid o)
      → Ready P u
      → Ready Q u
  unfolding Ready
  Ready-map P Q (exits o) h r = tt
  Ready-map P Q (ready semid storage o) h r = h semid o r

  receiver_sems-Ready :
      (storage : ℕ) (o : O) → Ready (ReceiverReady o) (receiver_sems objects storage o)
  unfolding receiver_sems Ready ReceiverReady SenderReady Initial Kept
  receiver_sems-Ready storage o = elim (Creation-cases (objects.semget_excl o)) [
    | inl (semid, o1, e) ↦
        let (none_before, set) = law.semget_excl_lem o o1 semid e in
        rw (receiver_sems, e)
          (Ready-map (SenderReady none) (ReceiverReady o) (set_values objects semid storage o1)
            (λ id o2 (i, same, init, _). inr (inr (i, same, none_before, init.0)))
            (set_values-Ready semid storage o1 none set (inl refl)))
    | inr (inl e) ↦ elim (Option-cases (objects.semget_old o)) [
      | inl f ↦ rw (Ready, receiver_sems, e, f) tt
      | inr (semid, f) ↦
          rw (Ready, receiver_sems, e, f)
            (inr (inl (semid, refl, law.semget_old_lem o semid f, (refl, refl))))
    ]
    | inr (inr e) ↦ rw (Ready, receiver_sems, e) (inl (refl, (refl, refl)))
  ]

  ReceiverReady-Kept :
      (o o1 : O) (semid : Option ℕ) (o2 : O)
      → Kept o o1
      → ReceiverReady o1 semid o2
      → ReceiverReady o semid o2
  unfolding ReceiverReady Kept
  ReceiverReady-Kept o o1 semid o2 k (inl (e, l)) = inl (e, (l.0 ∙ k.0, l.1 ∙ k.1))
  ReceiverReady-Kept o o1 semid o2 k (inr (inl (i, e, f, l))) =
      inr (inl (i, e, sym (k.0) ∙ f, (l.0 ∙ k.0, l.1 ∙ k.1)))
  ReceiverReady-Kept o o1 semid o2 k (inr (inr (i, e, f, g))) = inr (inr (i, e, sym (k.0) ∙ f, g))

  pub receiver_setup-Ready :
      (mode : Mode) (o : O) → Ready (ReceiverReady o) (receiver_setup objects mode o)
  unfolding receiver_setup Ready Kept
  receiver_setup-Ready message_passing o = elim (Option-cases (objects.msgget o)) [
    | inl e ↦ rw (Ready, receiver_setup, e) tt
    | inr ((msqid, o1), e) ↦
        rw (receiver_setup, e)
          (Ready-map (ReceiverReady o1) (ReceiverReady o) (receiver_sems objects msqid o1)
            (λ id o2 r. ReceiverReady-Kept o o1 id o2 (law.msgget_keeps o o1 msqid e) r)
            (receiver_sems-Ready msqid o1))
  ]
  receiver_setup-Ready shared_memory o = elim (Option-cases (objects.shmget o)) [
    | inl e ↦ rw (Ready, receiver_setup, e) tt
    | inr ((shmid, o1), e) ↦ elim (Option-cases (objects.shmat o1 shmid)) [
      | inl f ↦ rw (Ready, receiver_setup, e, f) tt
      | inr ((addr, o2), f) ↦
          let k = law.shmget_keeps o o1 shmid e in
          let l = law.shmat_keeps o1 o2 shmid addr f in
          rw (receiver_setup, e, f)
            (Ready-map (ReceiverReady o2) (ReceiverReady o) (receiver_sems objects addr o2)
              (λ id o3 r. ReceiverReady-Kept o o2 id o3 (l.0 ∙ k.0, l.1 ∙ k.1) r)
              (receiver_sems-Ready addr o2))
    ]
  ]
