-- ===== src/Mailbox/Setup.antt =====
-- Lab1/sender.c and Lab1/receiver.c: what the programs do before their loops and behind them.
pub mod Each
pub mod Both
mod Tests
use fall_oslab.Base.{ℕ, Option, none, some}
use fall_oslab.Mailbox.Program.{Mode, message_passing, shared_memory}

-- What semget answers with IPC_CREAT | IPC_EXCL: a new set, EEXIST, or another error.
pub data Creation (O : Type 0) : Type 0 where
  set_created : (semid : ℕ) → O → Creation O
  set_exists set_refused : Creation O

-- The calls, with the keys and flags that the programs give them, on the objects that exist: the queue,
-- the shared memory, and the semaphore set. `none` is -1.
pub record Objects (O : Type 0) : Type 0 where
  pub msgget : O → Option (ℕ × O)
  pub msg_stat : O → (msqid : ℕ) → Option ℕ
  pub msg_set : O → (msqid qbytes : ℕ) → Option O
  pub msg_remove : O → (msqid : ℕ) → O
  pub shmget : O → Option (ℕ × O)
  pub shmat : O → (shmid : ℕ) → Option (ℕ × O)
  pub memset_zero : O → (addr size : ℕ) → O
  pub shmdt : O → (addr : ℕ) → O
  pub shmget_old : O → Option ℕ
  pub shm_remove : O → (shmid : Option ℕ) → O
  pub semget : O → Option (ℕ × O)
  pub semget_excl : O → Creation O
  pub semget_old : O → Option ℕ
  pub setval : O → (semid num value : ℕ) → Option O
  pub sem_remove : O → (semid : Option ℕ) → O

-- A program ends with the status 1, or goes on to its loop with its mailbox: semid, where `none` is -1,
-- and msqid or shm_addr.
pub data Setup (O : Type 0) : Type 0 where
  exits : O → Setup O
  ready : (semid : Option ℕ) (storage : ℕ) → O → Setup O

module _ {O : Type 0} (objects : Objects O) where
  -- The two calls with SETVAL: empty becomes 1, and full 0.
  unfoldable pub set_values : (semid storage : ℕ) → O → Setup O
  set_values semid storage o = elim (objects.setval o semid 0 1) [
    | none ↦ exits o
    | some o1 ↦ elim (objects.setval o1 semid 1 0) [
      | none ↦ exits o1
      | some o2 ↦ ready (some semid) storage o2
    ]
  ]

  unfoldable pub sender_sems : (storage : ℕ) → O → Setup O
  sender_sems storage o = elim (objects.semget o) [
    | none ↦ exits o
    | some (semid, o1) ↦ set_values semid storage o1
  ]

  -- The receiver initialises the set only if it has created it; behind another error than EEXIST it
  -- goes on.
  unfoldable pub receiver_sems : (storage : ℕ) → O → Setup O
  receiver_sems storage o = elim (objects.semget_excl o) [
    | set_created semid o1 ↦ set_values semid storage o1
    | set_exists ↦ elim (objects.semget_old o) [
      | none ↦ exits o
      | some semid ↦ ready (some semid) storage o
    ]
    | set_refused ↦ ready none storage o
  ]

  unfoldable pub sender_setup : Mode → O → Setup O
  sender_setup message_passing o = elim (objects.msgget o) [
    | none ↦ exits o
    | some (msqid, o1) ↦ elim (objects.msg_stat o1 msqid) [
      | none ↦ exits o1
      | some _ ↦ elim (objects.msg_set o1 msqid 1024) [
        | none ↦ exits o1
        | some o2 ↦ sender_sems msqid o2
      ]
    ]
  ]
  sender_setup shared_memory o = elim (objects.shmget o) [
    | none ↦ exits o
    | some (shmid, o1) ↦ elim (objects.shmat o1 shmid) [
      | none ↦ exits o1
      | some (addr, o2) ↦ sender_sems addr (objects.memset_zero o2 addr 1024)
    ]
  ]

  unfoldable pub receiver_setup : Mode → O → Setup O
  receiver_setup message_passing o = elim (objects.msgget o) [
    | none ↦ exits o
    | some (msqid, o1) ↦ receiver_sems msqid o1
  ]
  receiver_setup shared_memory o = elim (objects.shmget o) [
    | none ↦ exits o
    | some (shmid, o1) ↦ elim (objects.shmat o1 shmid) [
      | none ↦ exits o1
      | some (addr, o2) ↦ receiver_sems addr o2
    ]
  ]

  -- What the receiver removes behind its loop.
  unfoldable pub receiver_close : Mode → (semid : Option ℕ) (storage : ℕ) → O → O
  receiver_close message_passing semid storage o = objects.msg_remove o storage
  receiver_close shared_memory semid storage o =
      let o1 = objects.shmdt o storage in
      objects.sem_remove (objects.shm_remove o1 (objects.shmget_old o1)) semid

-- Which program is set up first, as a whole.
pub data Order : Type 0 where
  sender_first receiver_first : Order

-- Both set-ups: the semids of the sender and the receiver and the objects, if neither exits.
abbrev pub second_setup : {O : Type 0} → (O → Setup O) → Setup O → Option (Option ℕ × Option ℕ × O)
second_setup next (exits o) = none
second_setup next (ready semid storage o) = elim (next o) [
  | exits o' ↦ none
  | ready semid' storage' o' ↦ some (semid, semid', o')
]

abbrev swapped : {O : Type 0} → Option (Option ℕ × Option ℕ × O) → Option (Option ℕ × Option ℕ × O)
swapped none = none
swapped (some (r, s, o)) = some (s, r, o)

unfoldable pub both_setups :
    {O : Type 0} → Objects O → Order → Mode → O → Option (Option ℕ × Option ℕ × O)
both_setups objects sender_first mode o =
    second_setup (receiver_setup objects mode) (sender_setup objects mode o)
both_setups objects receiver_first mode o =
    swapped (second_setup (sender_setup objects mode) (receiver_setup objects mode o))
