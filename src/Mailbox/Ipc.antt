-- ===== src/Mailbox/Ipc.antt =====
-- Lab1: what the two programs take from the operating system.
use fall_oslab.Base.{ℕ, suc, ◌≡◌, ◌≢◌, ◌≤◌, List, [], ◌∷◌, ◌++◌, ◌==◌, if◌then◌else◌, length}

-- What a system call does: it lets the caller wait, returns -1, or goes through.
pub data Answer {ℓ} (A : Type ℓ) : Type ℓ where
  waits : Answer A
  fails : Answer A
  done : A → Answer A

-- The bytes of a `char` array.
abbrev pub Bytes : Type 0
Bytes = List ℕ

-- The values of the semaphore set, as GETVAL reads them: number 0 is `empty`, 1 is `full`.
abbrev pub Sems : Type 0
Sems = ℕ → ℕ

-- semop with sem_op = -1 and sem_op = 1, semctl with SETVAL, and the two calls on the message queue.
pub record Ipc : Type 0 where
  pub sem_down : Sems → ℕ → Answer Sems
  pub sem_up : Sems → ℕ → Answer Sems
  pub set_val : Sems → ℕ → ℕ → Sems
  pub msgsnd : List Bytes → Bytes → Answer (List Bytes)
  pub msgrcv : List Bytes → Answer (Bytes × List Bytes)

-- What their manual pages say of calls that are permitted, on objects that nobody removes. A queue
-- of 1024 bytes (msg_qbytes) has room for one message at least.
pub record IsIpc (ipc : Ipc) : Type 0 where
  pub down_waits : (s : Sems) (i : ℕ) → ipc.sem_down s i ≡ waits → s i ≡ 0
  pub down_done : (s s' : Sems) (i : ℕ) → ipc.sem_down s i ≡ done s' → s i ≡ suc (s' i)
  pub down_other : (s s' : Sems) (i j : ℕ) → ipc.sem_down s i ≡ done s' → j ≢ i → s' j ≡ s j
  pub down_succeeds : (s : Sems) (i : ℕ) → ipc.sem_down s i ≢ fails
  pub up_done : (s s' : Sems) (i : ℕ) → ipc.sem_up s i ≡ done s' → s' i ≡ suc (s i)
  pub up_other : (s s' : Sems) (i j : ℕ) → ipc.sem_up s i ≡ done s' → j ≢ i → s' j ≡ s j
  pub up_succeeds : (s : Sems) (i : ℕ) → (ipc.sem_up s i ≢ fails) × (ipc.sem_up s i ≢ waits)
  pub set_val_lem : (s : Sems) (i v j : ℕ) → ipc.set_val s i v j ≡ (if j == i then v else s j)
  pub snd_waits : (q : List Bytes) (m : Bytes) → ipc.msgsnd q m ≡ waits → 1 ≤ length q
  pub snd_done : (q q' : List Bytes) (m : Bytes) → ipc.msgsnd q m ≡ done q' → q' ≡ q ++ (m ∷ [])
  pub snd_succeeds : (q : List Bytes) (m : Bytes) → ipc.msgsnd q m ≢ fails
  pub rcv_waits : (q : List Bytes) → ipc.msgrcv q ≡ waits → q ≡ []
  pub rcv_done : (q : List Bytes) (r : Bytes × List Bytes) → ipc.msgrcv q ≡ done r → q ≡ r.0 ∷ r.1
  pub rcv_succeeds : (q : List Bytes) → ipc.msgrcv q ≢ fails
