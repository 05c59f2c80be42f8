-- ===== src/Mailbox/Exits.antt =====
-- Lab1: the receiver ends at the exit message only, which is the last one sent.
use mathlib.Core.Path.{subst}
use fall_oslab.Base.{
  ◌≡◌, refl, ap, sym, ◌∙◌, List, [], ◌∷◌, ◌++◌, Option, none, some, Bool, true, false, Bool-cases,
  inl, inr,
}
use fall_oslab.Mailbox.Ipc.{Bytes, Ipc}
use fall_oslab.Mailbox.Text.{c_string}
use fall_oslab.Mailbox.Program.{
  Mode, message_passing, shared_memory, exit_msg, SenderPc, reading, sending, storing, signalling,
  sender_done, sender_failed, ReceiverPc, waiting, loading, releasing, checking, receiver_done,
  receiver_failed, Memory, strcmp_eq, read_next, send_p, send_store, send_v, sender, receive_p,
  receive_load, receive_v, check_exit, receiver, System, Step, by_sender, by_receiver, Run, here,
  next,
}
use fall_oslab.Mailbox.Invariant.{Answer-cases}

-- No text of a list reads "exit".
abbrev pub NoExit : List Bytes → Type 0
NoExit [] = Unit
NoExit (t ∷ ts) = (strcmp_eq t exit_msg ≡ false) × NoExit ts

-- What the receiver knows: it has printed no exit message, and it ends at one only.
abbrev pub Exits : ReceiverPc → Memory → Type 0
Exits receiver_done m = NoExit m.log × (strcmp_eq (c_string m.received) exit_msg ≡ true)
Exits waiting m = NoExit m.log
Exits loading m = NoExit m.log
Exits releasing m = NoExit m.log
Exits checking m = NoExit m.log
Exits receiver_failed m = NoExit m.log

Exits-NoExit : (r : ReceiverPc) (m : Memory) → Exits r m → NoExit m.log
Exits-NoExit receiver_done m e = e.0
Exits-NoExit waiting m e = e
Exits-NoExit loading m e = e
Exits-NoExit releasing m e = e
Exits-NoExit checking m e = e
Exits-NoExit receiver_failed m e = e

NoExit-append :
    (ts : List Bytes) (t : Bytes)
    → NoExit ts
    → strcmp_eq t exit_msg ≡ false
    → NoExit (ts ++ (t ∷ []))
NoExit-append [] t h e = (e, tt)
NoExit-append (u ∷ ts) t h e = (h.0, NoExit-append ts t h.1 e)

exit_eq : strcmp_eq exit_msg exit_msg ≡ true
unfolding strcmp_eq
exit_eq = refl

pub not-NoExit : (ts : List Bytes) → ¬ NoExit (ts ++ (exit_msg ∷ []))
not-NoExit [] h = cc (sym exit_eq ∙ h.0)
not-NoExit (t ∷ ts) h = not-NoExit ts h.1

-- An exit message among texts that are none, and the exit message behind them, is the last one.
pub exit_last :
    (log ts tail : List Bytes) (x : Bytes)
    → log ++ (x ∷ tail) ≡ ts ++ (exit_msg ∷ [])
    → NoExit ts
    → strcmp_eq x exit_msg ≡ true
    → (log ≡ ts) × (tail ≡ [])
exit_last [] [] tail x e h t = (refl, cc)
exit_last [] (u ∷ ts) tail x e h t =
    let same : x ≡ u = cc in absurd (cc (sym t ∙ ap (λ y. strcmp_eq y exit_msg) same ∙ h.0))
exit_last (l ∷ []) [] tail x e h t = absurd (cc)
exit_last (l ∷ (k ∷ log)) [] tail x e h t = absurd (cc)
exit_last (l ∷ log) (u ∷ ts) tail x e h t =
    let rest : log ++ (x ∷ tail) ≡ ts ++ (exit_msg ∷ []) = cc in
    let same : l ≡ u = cc in let (a, b) = exit_last log ts tail x rest h.1 t in (cc, b)

abbrev ExitsAfter : Option (ReceiverPc × Memory) → Type 0
ExitsAfter none = Unit
ExitsAfter (some (r, m)) = Exits r m

-- The sender touches neither the log nor the receiver's buffer.
abbrev Leaves : Memory → Option (SenderPc × Memory) → Type 0
Leaves m none = Unit
Leaves m (some (s, m')) = (m'.log ≡ m.log) × (m'.received ≡ m.received)

receive_load-Exits :
    (ipc : Ipc) (mode : Mode) (m : Memory) → NoExit m.log → ExitsAfter (receive_load ipc mode m)
unfolding receive_load
receive_load-Exits ipc shared_memory m h = h
receive_load-Exits ipc message_passing m h = elim (Answer-cases (ipc.msgrcv m.queue)) [
  | inl (inl e) ↦ rw (ExitsAfter, e) tt
  | inl (inr e) ↦ rw (ExitsAfter, e) h
  | inr (x, e) ↦ rw (ExitsAfter, e) h
]

read_next-Leaves : (file : Bytes) (m : Memory) → Leaves m (read_next file m)
unfolding read_next
read_next-Leaves [] m = (refl, refl)
read_next-Leaves (c ∷ cs) m = (refl, refl)

send_store-Leaves :
    (ipc : Ipc) (mode : Mode) (last : Bool) (m : Memory) → Leaves m (send_store ipc mode last m)
unfolding send_store
send_store-Leaves ipc shared_memory last m = (refl, refl)
send_store-Leaves ipc message_passing last m = elim (Answer-cases (ipc.msgsnd m.queue m.message)) [
  | inl (inl e) ↦ rw (Leaves, e) tt
  | inl (inr e) ↦ rw (Leaves, e) (refl, refl)
  | inr (x, e) ↦ rw (Leaves, e) (refl, refl)
]

Exits-same :
    (r : ReceiverPc) (m m' : Memory)
    → m'.log ≡ m.log
    → m'.received ≡ m.received
    → Exits r m
    → Exits r m'
Exits-same receiver_done m m' e f h = rw (e, f) h
Exits-same waiting m m' e f h = rw e h
Exits-same loading m m' e f h = rw e h
Exits-same releasing m m' e f h = rw e h
Exits-same checking m m' e f h = rw e h
Exits-same receiver_failed m m' e f h = rw e h

module _ (ipc : Ipc) (mode : Mode) where
  receiver-Exits : (r : ReceiverPc) (m : Memory) → Exits r m → ExitsAfter (receiver ipc mode r m)
  unfolding receiver receive_p receive_v check_exit
  receiver-Exits waiting m h = elim (Answer-cases (ipc.sem_down m.sems 1)) [
    | inl (inl e) ↦ rw (ExitsAfter, e) tt
    | inl (inr e) ↦ rw (ExitsAfter, e) h
    | inr (x, e) ↦ rw (ExitsAfter, e) h
  ]
  receiver-Exits loading m h = receive_load-Exits ipc mode m h
  receiver-Exits releasing m h = elim (Answer-cases (ipc.sem_up m.sems 0)) [
    | inl (inl e) ↦ rw (ExitsAfter, e) tt
    | inl (inr e) ↦ rw (ExitsAfter, e) h
    | inr (x, e) ↦ rw (ExitsAfter, e) h
  ]
  receiver-Exits checking m h = elim (Bool-cases (strcmp_eq (c_string m.received) exit_msg)) [
    | inl e ↦ rw (ExitsAfter, e) (h, e)
    | inr e ↦ rw (ExitsAfter, e) (NoExit-append m.log (c_string m.received) h e)
  ]
  receiver-Exits receiver_done m h = tt
  receiver-Exits receiver_failed m h = tt

  sender-Leaves : (s : SenderPc) (m : Memory) → Leaves m (sender ipc mode s m)
  unfolding sender send_p send_v
  sender-Leaves reading m = read_next-Leaves m.file m
  sender-Leaves (sending last) m = elim (Answer-cases (ipc.sem_down m.sems 0)) [
    | inl (inl e) ↦ rw (Leaves, e) tt
    | inl (inr e) ↦ rw (Leaves, e) (refl, refl)
    | inr (x, e) ↦ rw (Leaves, e) (refl, refl)
  ]
  sender-Leaves (storing last) m = send_store-Leaves ipc mode last m
  sender-Leaves (signalling last) m = elim (Answer-cases (ipc.sem_up m.sems 1)) [
    | inl (inl e) ↦ rw (Leaves, e) tt
    | inl (inr e) ↦ rw (Leaves, e) (refl, refl)
    | inr (x, e) ↦ rw (Leaves, e) (refl, refl)
  ]
  sender-Leaves sender_done m = tt
  sender-Leaves sender_failed m = tt

  pub Step-Exits : {w w' : System} → Step ipc mode w w' → Exits w.r w.memory → Exits w'.r w'.memory
  Step-Exits {w} (by_sender p m e) h =
      let (l, r) = subst (Leaves w.memory) e (sender-Leaves w.s w.memory) in
      Exits-same w.r w.memory m l r h
  Step-Exits {w} (by_receiver p m e) h = subst ExitsAfter e (receiver-Exits w.r w.memory h)

  pub Run-Exits : {w w' : System} → Run ipc mode w w' → Exits w.r w.memory → Exits w'.r w'.memory
  Run-Exits here h = h
  Run-Exits (next run step) h = Step-Exits step (Run-Exits run h)
