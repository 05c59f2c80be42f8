-- ===== src/Mailbox/Invariant.antt =====
-- Lab1: the invariant of the two programs: one token, and no text lost on its way.
pub mod Actions
pub mod Transfer
pub mod Steps
use mathlib.Core.Path.{subst}
use mathlib.Core.List.{append_assoc}
use fall_oslab.Base.{
  ℕ, zero, suc, ◌+◌, ◌≤◌, ◌≡◌, ◌≢◌, refl, ap, sym, ◌∙◌, List, [], ◌∷◌, ◌++◌, map, Option, none,
  some, Bool, true, false, if◌then◌else◌, arith, Bool-cases, inl, inr, ◌⊎◌, length, take, take_all,
  drop, length-take,
}
use fall_oslab.Mailbox.Ipc.{Answer, waits, fails, done, Bytes, Sems, Ipc, IsIpc}
use fall_oslab.Mailbox.Text.{
  c_string, strncpy, set, text_of, c_string-set-strncpy, c_string-strncpy,
}
use fall_oslab.Mailbox.Lines.{
  fgets_line, fgets_rest, stored_line, texts, texts-cons, c_string-stored_line,
  length-text_of-fgets_line,
}
use fall_oslab.Mailbox.Program.{
  Mode, message_passing, shared_memory, exit_msg, SenderPc, reading, sending, storing, signalling,
  sender_done, sender_failed, ReceiverPc, waiting, loading, releasing, checking, receiver_done,
  receiver_failed, Memory, strcmp_eq, read_next, send_p, send_store, send_v, sender, receive_p,
  receive_load, receive_v, check_exit, receiver,
}

-- All that the sender sends.
abbrev pub sent : Bytes → List Bytes
sent file = texts file ++ (exit_msg ∷ [])

abbrev pub after : (last : Bool) → Bytes → List Bytes
after true file = []
after false file = sent file

-- What the sender has still to put into the mailbox.
abbrev pub pending : SenderPc → (file message : Bytes) → List Bytes
pending reading file message = sent file
pending (sending last) file message = c_string message ∷ after last file
pending (storing last) file message = c_string message ∷ after last file
pending (signalling last) file message = after last file
pending sender_done file message = []
pending sender_failed file message = []

-- What the receiver has taken out and not printed.
abbrev pub held : ReceiverPc → (received : Bytes) → List Bytes
held waiting received = []
held loading received = []
held releasing received = c_string received ∷ []
held checking received = c_string received ∷ []
held receiver_done received = c_string received ∷ []
held receiver_failed received = []

-- Between P and V.
abbrev pub sender_inside : SenderPc → ℕ
sender_inside (storing _) = 1
sender_inside (signalling _) = 1
sender_inside reading = 0
sender_inside (sending _) = 0
sender_inside sender_done = 0
sender_inside sender_failed = 0

abbrev pub receiver_inside : ReceiverPc → ℕ
receiver_inside loading = 1
receiver_inside releasing = 1
receiver_inside waiting = 0
receiver_inside checking = 0
receiver_inside receiver_done = 0
receiver_inside receiver_failed = 0

abbrev pub stored : SenderPc → ℕ
stored (signalling _) = 1
stored reading = 0
stored (sending _) = 0
stored (storing _) = 0
stored sender_done = 0
stored sender_failed = 0

abbrev pub taken : ReceiverPc → ℕ
taken loading = 1
taken waiting = 0
taken releasing = 0
taken checking = 0
taken receiver_done = 0
taken receiver_failed = 0

-- How many messages lie in the mailbox.
abbrev pub occupied : SenderPc → ReceiverPc → Sems → ℕ
occupied s r sems = sems 1 + stored s + taken r

abbrev pub slot_if : ℕ → Bytes → List Bytes
slot_if zero shm = []
slot_if (suc n) shm = c_string shm ∷ []

-- The messages in the mailbox, given their number.
abbrev pub slot : Mode → ℕ → (shm : Bytes) → (queue : List Bytes) → List Bytes
slot message_passing n shm queue = map c_string queue
slot shared_memory n shm queue = slot_if n shm

abbrev pub IsShort : SenderPc → Bytes → Type 0
IsShort (sending _) message = length (c_string message) ≤ 1023
IsShort (storing _) message = length (c_string message) ≤ 1023
IsShort reading message = Unit
IsShort (signalling _) message = Unit
IsShort sender_done message = Unit
IsShort sender_failed message = Unit

abbrev pub Counted : Mode → ℕ → (shm : Bytes) → (queue : List Bytes) → Type 0
Counted message_passing n shm queue = length queue ≡ n
Counted shared_memory n shm queue = length (c_string shm) ≤ 1023

abbrev pub SenderAlive : SenderPc → Type 0
SenderAlive sender_failed = ⊥
SenderAlive reading = Unit
SenderAlive (sending _) = Unit
SenderAlive (storing _) = Unit
SenderAlive (signalling _) = Unit
SenderAlive sender_done = Unit

abbrev pub ReceiverAlive : ReceiverPc → Type 0
ReceiverAlive receiver_failed = ⊥
ReceiverAlive waiting = Unit
ReceiverAlive loading = Unit
ReceiverAlive releasing = Unit
ReceiverAlive checking = Unit
ReceiverAlive receiver_done = Unit

-- There is one token, in a semaphore or with a program; what was printed, what is held, what lies in
-- the mailbox and what is pending make up `all`, in this order.
pub record Inv (mode : Mode) (all : List Bytes) (s : SenderPc) (r : ReceiverPc) (m : Memory)
    : Type 0 where
  pub one : m.sems 0 + m.sems 1 + sender_inside s + receiver_inside r ≡ 1
  pub flow :
      m.log
        ++ (held r m.received
            ++ (slot mode (occupied s r m.sems) m.shm m.queue ++ pending s m.file m.message))
      ≡ all
  pub short : IsShort s m.message
  pub counted : Counted mode (occupied s r m.sems) m.shm m.queue
  pub sender_alive : SenderAlive s
  pub receiver_alive : ReceiverAlive r

-- What an action of the sender, or of the receiver, leaves.
abbrev pub SenderKeeps : Mode → List Bytes → ReceiverPc → Option (SenderPc × Memory) → Type 0
SenderKeeps mode all r none = Unit
SenderKeeps mode all r (some (s, m)) = Inv mode all s r m

abbrev pub ReceiverKeeps : Mode → List Bytes → SenderPc → Option (ReceiverPc × Memory) → Type 0
ReceiverKeeps mode all s none = Unit
ReceiverKeeps mode all s (some (r, m)) = Inv mode all s r m

pub Answer-cases {ℓ} :
    {A : Type ℓ} (a : Answer A) → ((a ≡ waits) ⊎ (a ≡ fails)) ⊎ ((x : A) × (a ≡ done x))
Answer-cases waits = inl (inl refl)
Answer-cases fails = inl (inr refl)
Answer-cases (done x) = inr (x, refl)

pub empty_list {ℓ} : {A : Type ℓ} (l : List A) → length l ≡ 0 → l ≡ []
empty_list [] h = refl
empty_list (x ∷ l) h = absurd (omega arith)

-- A text of at most 1023 bytes passes strncpy whole.
pub c_string-set-strncpy_short :
    (src : Bytes)
    → length (c_string src) ≤ 1023
    → c_string (set (strncpy 1024 src) 1023 0) ≡ c_string src
c_string-set-strncpy_short src h = c_string-set-strncpy 1023 src ∙ take_all 1023 (c_string src) h

pub c_string-strncpy_short :
    (src : Bytes)
    → length (c_string src) ≤ 1023
    → c_string (strncpy 1023 src ++ (0 ∷ [])) ≡ c_string src
c_string-strncpy_short src h = c_string-strncpy 1023 src ∙ take_all 1023 (c_string src) h

c_string-exit_msg : c_string exit_msg ≡ exit_msg
unfolding c_string
c_string-exit_msg = refl
