-- ===== src/Mailbox/Ending.antt =====
-- Lab1: where neither program can go on, both have ended and every text was printed.
use mathlib.Core.Path.{subst}
use mathlib.Core.List.{append-nil}
use fall_oslab.Base.{
  ℕ, ◌≡◌, refl, ap, sym, ◌∙◌, List, [], ◌∷◌, ◌++◌, map, Option, some, Bool, arith, inl, inr, ◌⊎◌,
  length,
}
use fall_oslab.Mailbox.Ipc.{Bytes, Ipc, IsIpc}
use fall_oslab.Mailbox.Text.{c_string}
use fall_oslab.Mailbox.Lines.{texts}
use fall_oslab.Mailbox.Program.{
  Mode, message_passing, shared_memory, SenderPc, reading, sending, storing, signalling,
  sender_done, sender_failed, ReceiverPc, waiting, loading, releasing, checking, receiver_done,
  receiver_failed, Memory, read_next, send_p, send_store, send_v, sender, receive_p, receive_load,
  receive_v, check_exit, receiver,
}
use fall_oslab.Mailbox.Invariant.{Inv, Counted, sent, Answer-cases, empty_list, occupied, slot}
use fall_oslab.Mailbox.Invariant.Actions.{free_slot}
use fall_oslab.Mailbox.Exits.{Exits, NoExit, exit_last, not-NoExit}

-- Where a program has no action: it waits for a semaphore that is 0, or has ended.
abbrev pub SenderIdle : SenderPc → Memory → Type 0
SenderIdle (sending _) m = m.sems 0 ≡ 0
SenderIdle sender_done m = Unit
SenderIdle reading m = ⊥
SenderIdle (storing _) m = ⊥
SenderIdle (signalling _) m = ⊥
SenderIdle sender_failed m = ⊥

abbrev pub ReceiverIdle : ReceiverPc → Memory → Type 0
ReceiverIdle waiting m = m.sems 1 ≡ 0
ReceiverIdle receiver_done m = Unit
ReceiverIdle loading m = ⊥
ReceiverIdle releasing m = ⊥
ReceiverIdle checking m = ⊥
ReceiverIdle receiver_failed m = ⊥

abbrev pub Moves {ℓ} : {A : Type ℓ} → Option A → Type ℓ
Moves {A} o = (x : A) × (o ≡ some x)

read_next-Moves : (file : Bytes) (m : Memory) → Moves (read_next file m)
unfolding read_next
read_next-Moves [] m = (_, refl)
read_next-Moves (c ∷ cs) m = (_, refl)

module _ (ipc : Ipc) (law : IsIpc ipc) (mode : Mode) (all : List Bytes) where
  send_store-Moves :
      (last : Bool) (r : ReceiverPc) (m : Memory)
      → (mode : Mode) → Inv mode all (storing last) r m
      → Moves (send_store ipc mode last m)
  unfolding send_store
  send_store-Moves last r m shared_memory v = (_, refl)
  send_store-Moves last r m message_passing v =
      let (f, g) = free_slot message_passing all last r m v in
      elim (Answer-cases (ipc.msgsnd m.queue m.message)) [
        | inl (inl e) ↦ absurd (omega (arith, law.snd_waits m.queue m.message e, v.counted))
        | inl (inr e) ↦ absurd (law.snd_succeeds m.queue m.message e)
        | inr (x, e) ↦ rw (Moves, send_store, e) (_, refl)
      ]

  receive_load-Moves :
      (s : SenderPc) (m : Memory)
      → (mode : Mode) → Inv mode all s loading m
      → Moves (receive_load ipc mode m)
  unfolding receive_load
  receive_load-Moves s m shared_memory v = (_, refl)
  receive_load-Moves s m message_passing v = elim (Answer-cases (ipc.msgrcv m.queue)) [
    | inl (inl e) ↦ absurd (omega (arith, ap length (law.rcv_waits m.queue e), v.counted))
    | inl (inr e) ↦ absurd (law.rcv_succeeds m.queue e)
    | inr (x, e) ↦ rw (Moves, receive_load, e) (_, refl)
  ]

  pub sender-Moves :
      (s : SenderPc) (r : ReceiverPc) (m : Memory)
      → Inv mode all s r m
      → Moves (sender ipc mode s m) ⊎ SenderIdle s m
  unfolding sender send_p send_v check_exit
  sender-Moves reading r m v = inl (read_next-Moves m.file m)
  sender-Moves (sending last) r m v = elim (Answer-cases (ipc.sem_down m.sems 0)) [
    | inl (inl e) ↦ inr (law.down_waits m.sems 0 e)
    | inl (inr e) ↦ absurd (law.down_succeeds m.sems 0 e)
    | inr (x, e) ↦ inl (rw (Moves, send_p, e) (_, refl))
  ]
  sender-Moves (storing last) r m v = inl (send_store-Moves last r m mode v)
  sender-Moves (signalling last) r m v = elim (Answer-cases (ipc.sem_up m.sems 1)) [
    | inl (inl e) ↦ absurd ((law.up_succeeds m.sems 1).1 e)
    | inl (inr e) ↦ absurd ((law.up_succeeds m.sems 1).0 e)
    | inr (x, e) ↦ inl (rw (Moves, send_v, e) (_, refl))
  ]
  sender-Moves sender_done r m v = inr tt
  sender-Moves sender_failed r m v = absurd v.sender_alive

  pub receiver-Moves :
      (s : SenderPc) (r : ReceiverPc) (m : Memory)
      → Inv mode all s r m
      → Moves (receiver ipc mode r m) ⊎ ReceiverIdle r m
  unfolding receiver receive_p receive_v check_exit
  receiver-Moves s waiting m v = elim (Answer-cases (ipc.sem_down m.sems 1)) [
    | inl (inl e) ↦ inr (law.down_waits m.sems 1 e)
    | inl (inr e) ↦ absurd (law.down_succeeds m.sems 1 e)
    | inr (x, e) ↦ inl (rw (Moves, receive_p, e) (_, refl))
  ]
  receiver-Moves s loading m v = inl (receive_load-Moves s m mode v)
  receiver-Moves s releasing m v = elim (Answer-cases (ipc.sem_up m.sems 0)) [
    | inl (inl e) ↦ absurd ((law.up_succeeds m.sems 0).1 e)
    | inl (inr e) ↦ absurd ((law.up_succeeds m.sems 0).0 e)
    | inr (x, e) ↦ inl (rw (Moves, receive_v, e) (_, refl))
  ]
  receiver-Moves s checking m v = inl (_, refl)
  receiver-Moves s receiver_done m v = inr tt
  receiver-Moves s receiver_failed m v = absurd v.receiver_alive

pub slot_empty :
    (mode : Mode) (n : ℕ) (shm : Bytes) (queue : List Bytes)
    → n ≡ 0
    → Counted mode n shm queue
    → slot mode n shm queue ≡ []
slot_empty message_passing n shm queue e c = ap (map c_string) (empty_list queue (c ∙ e))
slot_empty shared_memory n shm queue e c = rw e refl

append-cons-ne-nil : (xs : List Bytes) (y : Bytes) (ys : List Bytes) → ¬ (xs ++ (y ∷ ys) ≡ [])
append-cons-ne-nil [] y ys e = absurd (cc e)
append-cons-ne-nil (x ∷ xs) y ys e = absurd (cc e)

-- An idle sender and an idle receiver have both ended, and every text of the file was printed.
pub idle_ends :
    (mode : Mode) (file : Bytes) (s : SenderPc) (r : ReceiverPc) (m : Memory)
    → Inv mode (sent file) s r m
    → Exits r m
    → NoExit (texts file)
    → SenderIdle s m
    → ReceiverIdle r m
    → (s ≡ sender_done) × (r ≡ receiver_done) × (m.log ≡ texts file)
idle_ends mode file (sending last) waiting m v x n si ri = absurd (omega (arith, v.one))
idle_ends mode file (sending last) receiver_done m v x n si ri = absurd (
    append-cons-ne-nil (slot mode (occupied (sending last) receiver_done m.sems) m.shm m.queue)
      (c_string m.message) _ (exit_last m.log (texts file) _ (c_string m.received) v.flow n x.1).1)
idle_ends mode file sender_done waiting m v x n si ri =
    let none_left =
      slot_empty mode (occupied sender_done waiting m.sems) m.shm m.queue (omega arith) v.counted in
    absurd (
      not-NoExit (texts file) (
        subst NoExit
          (sym (append-nil m.log) ∙ ap (λ q. m.log ++ (q ++ [])) (sym none_left) ∙ v.flow) x))
idle_ends mode file reading r m v x n si ri = elim si [ ]
idle_ends mode file (sending last) loading m v x n si ri = elim ri [ ]
idle_ends mode file (sending last) releasing m v x n si ri = elim ri [ ]
idle_ends mode file (sending last) checking m v x n si ri = elim ri [ ]
idle_ends mode file (sending last) receiver_failed m v x n si ri = elim ri [ ]
idle_ends mode file (storing last) r m v x n si ri = elim si [ ]
idle_ends mode file (signalling last) r m v x n si ri = elim si [ ]
idle_ends mode file sender_done loading m v x n si ri = elim ri [ ]
idle_ends mode file sender_done releasing m v x n si ri = elim ri [ ]
idle_ends mode file sender_done checking m v x n si ri = elim ri [ ]
idle_ends mode file sender_done receiver_failed m v x n si ri = elim ri [ ]
idle_ends mode file sender_failed r m v x n si ri = elim si [ ]
idle_ends mode file sender_done receiver_done m v x n si ri =
    (refl, refl, (exit_last m.log (texts file) _ (c_string m.received) v.flow n x.1).0)
