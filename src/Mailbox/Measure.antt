-- ===== src/Mailbox/Measure.antt =====
-- Lab1: each step of the two programs lowers a measure, so every run of them ends.
use mathlib.Core.Path.{subst}
use fall_oslab.Base.{
  ℕ, suc, ◌+◌, ◌*◌, ◌<◌, ◌≡◌, refl, ap, [], ◌∷◌, Option, none, some, Bool, true, false,
  if◌then◌else◌, arith, Bool-cases, inl, inr, length,
}
use fall_oslab.Mailbox.Ipc.{Bytes, Sems, Ipc, IsIpc}
use fall_oslab.Mailbox.Text.{c_string}
use fall_oslab.Mailbox.Lines.{fgets_rest-lt}
use fall_oslab.Mailbox.Program.{
  Mode, message_passing, shared_memory, exit_msg, SenderPc, reading, sending, storing, signalling,
  sender_done, sender_failed, ReceiverPc, waiting, loading, releasing, checking, receiver_done,
  receiver_failed, Memory, strcmp_eq, read_next, send_p, send_store, send_v, sender, receive_p,
  receive_load, receive_v, check_exit, receiver, System, Step, by_sender, by_receiver,
}
use fall_oslab.Mailbox.Invariant.{Answer-cases}

-- The actions that are left, for the bytes of the file that are left: each byte counts for the
-- actions of both programs on one message.
abbrev pub sender_left : SenderPc → (bytes : ℕ) → ℕ
sender_left reading n = 10 * n + 9
sender_left (sending true) n = 8
sender_left (storing true) n = 7
sender_left (signalling true) n = 6
sender_left (sending false) n = 10 * n + 17
sender_left (storing false) n = 10 * n + 16
sender_left (signalling false) n = 10 * n + 15
sender_left sender_done n = 0
sender_left sender_failed n = 0

abbrev pub receiver_left : ReceiverPc → ℕ
receiver_left loading = 4
receiver_left releasing = 3
receiver_left checking = 2
receiver_left waiting = 1
receiver_left receiver_done = 0
receiver_left receiver_failed = 0

abbrev pub measure : SenderPc → ReceiverPc → Memory → ℕ
measure s r m = sender_left s (length m.file) + receiver_left r + 4 * m.sems 1

abbrev SenderLowers : SenderPc → ReceiverPc → Memory → Option (SenderPc × Memory) → Type 0
SenderLowers s r m none = Unit
SenderLowers s r m (some (s', m')) = measure s' r m' < measure s r m

abbrev ReceiverLowers : SenderPc → ReceiverPc → Memory → Option (ReceiverPc × Memory) → Type 0
ReceiverLowers s r m none = Unit
ReceiverLowers s r m (some (r', m')) = measure s r' m' < measure s r m

read_next-Lowers :
    (file : Bytes) (r : ReceiverPc) (m : Memory)
    → m.file ≡ file
    → SenderLowers reading r m (read_next file m)
unfolding read_next
read_next-Lowers [] r m e = omega arith
read_next-Lowers (c ∷ cs) r m e = omega (arith, fgets_rest-lt 1022 c cs, ap length e)

module _ (ipc : Ipc) (law : IsIpc ipc) where
  send_p-Lowers :
      (last : Bool) (r : ReceiverPc) (m : Memory)
      → SenderLowers (sending last) r m (send_p ipc last m)
  unfolding send_p
  send_p-Lowers last r m = elim (Answer-cases (ipc.sem_down m.sems 0)) [
    | inl (inl e) ↦ rw (SenderLowers, e) tt
    | inl (inr e) ↦ absurd (law.down_succeeds m.sems 0 e)
    | inr (s, e) ↦ rw (SenderLowers, e) (lower last s (law.down_other m.sems s 0 1 e (omega arith)))
  ]
    where
      lower :
          (last : Bool) (s : Sems)
          → s 1 ≡ m.sems 1
          → measure (storing last) r (record m { sems = s }) < measure (sending last) r m
      lower true s e = omega arith
      lower false s e = omega arith

  send_store-Lowers :
      (mode : Mode) (last : Bool) (r : ReceiverPc) (m : Memory)
      → SenderLowers (storing last) r m (send_store ipc mode last m)
  unfolding send_store
  send_store-Lowers shared_memory true r m = omega arith
  send_store-Lowers shared_memory false r m = omega arith
  send_store-Lowers message_passing last r m = elim (Answer-cases (ipc.msgsnd m.queue m.message)) [
    | inl (inl e) ↦ rw (SenderLowers, e) tt
    | inl (inr e) ↦ absurd (law.snd_succeeds m.queue m.message e)
    | inr (q, e) ↦ rw (SenderLowers, e) (lower last)
  ]
    where
      lower : (last : Bool) → measure (signalling last) r m < measure (storing last) r m
      lower true = omega arith
      lower false = omega arith

  send_v-Lowers :
      (last : Bool) (r : ReceiverPc) (m : Memory)
      → SenderLowers (signalling last) r m (send_v ipc last m)
  unfolding send_v
  send_v-Lowers last r m = elim (Answer-cases (ipc.sem_up m.sems 1)) [
    | inl (inl e) ↦ rw (SenderLowers, e) tt
    | inl (inr e) ↦ absurd ((law.up_succeeds m.sems 1).0 e)
    | inr (s, e) ↦ rw (SenderLowers, e) (lower last s (law.up_done m.sems s 1 e))
  ]
    where
      lower :
          (last : Bool) (s : Sems)
          → s 1 ≡ suc (m.sems 1)
          → measure (if last then sender_done else reading) r (record m { sems = s })
            < measure (signalling last) r m
      lower true s e = omega arith
      lower false s e = omega arith

  sender-Lowers :
      (mode : Mode) (s : SenderPc) (r : ReceiverPc) (m : Memory)
      → SenderLowers s r m (sender ipc mode s m)
  unfolding sender
  sender-Lowers mode reading r m = read_next-Lowers m.file r m refl
  sender-Lowers mode (sending last) r m = send_p-Lowers last r m
  sender-Lowers mode (storing last) r m = send_store-Lowers mode last r m
  sender-Lowers mode (signalling last) r m = send_v-Lowers last r m
  sender-Lowers mode sender_done r m = tt
  sender-Lowers mode sender_failed r m = tt

  receive_load-Lowers :
      (mode : Mode) (s : SenderPc) (m : Memory)
      → ReceiverLowers s loading m (receive_load ipc mode m)
  unfolding receive_load
  receive_load-Lowers shared_memory s m = omega arith
  receive_load-Lowers message_passing s m = elim (Answer-cases (ipc.msgrcv m.queue)) [
    | inl (inl e) ↦ rw (ReceiverLowers, e) tt
    | inl (inr e) ↦ absurd (law.rcv_succeeds m.queue e)
    | inr (x, e) ↦ rw (ReceiverLowers, e) (omega arith)
  ]

  check_exit-Lowers : (s : SenderPc) (m : Memory) → ReceiverLowers s checking m (check_exit m)
  unfolding check_exit
  check_exit-Lowers s m = elim (Bool-cases (strcmp_eq (c_string m.received) exit_msg)) [
    | inl e ↦ rw (ReceiverLowers, e) (omega arith)
    | inr e ↦ rw (ReceiverLowers, e) (omega arith)
  ]

  receiver-Lowers :
      (mode : Mode) (s : SenderPc) (r : ReceiverPc) (m : Memory)
      → ReceiverLowers s r m (receiver ipc mode r m)
  unfolding receiver receive_p receive_v
  receiver-Lowers mode s waiting m = elim (Answer-cases (ipc.sem_down m.sems 1)) [
    | inl (inl e) ↦ rw (ReceiverLowers, e) tt
    | inl (inr e) ↦ absurd (law.down_succeeds m.sems 1 e)
    | inr (x, e) ↦ rw (ReceiverLowers, e) (omega (arith, law.down_done m.sems x 1 e))
  ]
  receiver-Lowers mode s loading m = receive_load-Lowers mode s m
  receiver-Lowers mode s releasing m = elim (Answer-cases (ipc.sem_up m.sems 0)) [
    | inl (inl e) ↦ rw (ReceiverLowers, e) tt
    | inl (inr e) ↦ absurd ((law.up_succeeds m.sems 0).0 e)
    | inr (x, e) ↦ rw (ReceiverLowers, e) (omega (arith, law.up_other m.sems x 0 1 e (omega arith)))
  ]
  receiver-Lowers mode s checking m = check_exit-Lowers s m
  receiver-Lowers mode s receiver_done m = tt
  receiver-Lowers mode s receiver_failed m = tt

  pub Step-measure :
      {mode : Mode} {w w' : System}
      → Step ipc mode w w'
      → measure w'.s w'.r w'.memory < measure w.s w.r w.memory
  Step-measure {mode} {w} (by_sender p m e) =
      subst (SenderLowers w.s w.r w.memory) e (sender-Lowers mode w.s w.r w.memory)
  Step-measure {mode} {w} (by_receiver p m e) =
      subst (ReceiverLowers w.s w.r w.memory) e (receiver-Lowers mode w.s w.r w.memory)
