-- ===== src/Mailbox/Invariant/Steps.antt =====
-- Lab1: every step of the two programs keeps the invariant.
use mathlib.Core.Path.{subst}
use mathlib.Core.List.{append_assoc}
use fall_oslab.Base.{◌+◌, ◌≡◌, refl, ◌∙◌, List, [], ◌∷◌, arith, Bool-cases, inl, inr}
use fall_oslab.Mailbox.Ipc.{Bytes, Ipc, IsIpc}
use fall_oslab.Mailbox.Text.{c_string}
use fall_oslab.Mailbox.Program.{
  Mode, exit_msg, SenderPc, reading, sending, storing, signalling, sender_done, sender_failed,
  ReceiverPc, waiting, loading, releasing, checking, receiver_done, receiver_failed, Memory,
  strcmp_eq, sender, receive_p, receive_v, check_exit, receiver, System, Step, by_sender,
  by_receiver, Run, here, next,
}
use fall_oslab.Mailbox.Invariant.{Inv, SenderKeeps, ReceiverKeeps, Answer-cases, stored}
use fall_oslab.Mailbox.Invariant.Actions.{read_next-Inv, send_p-Inv, send_v-Inv}
use fall_oslab.Mailbox.Invariant.Transfer.{send_store-Inv, receive_load-Inv}

module _ (ipc : Ipc) (law : IsIpc ipc) (mode : Mode) (all : List Bytes) where
  receive_p-Inv :
      (s : SenderPc) (m : Memory)
      → Inv mode all s waiting m
      → ReceiverKeeps mode all s (receive_p ipc m)
  unfolding receive_p
  receive_p-Inv s m v = elim (Answer-cases (ipc.sem_down m.sems 1)) [
    | inl (inl e) ↦ rw (ReceiverKeeps, e) tt
    | inl (inr e) ↦ absurd (law.down_succeeds m.sems 1 e)
    | inr (x, e) ↦
        let d = law.down_done m.sems x 1 e in
        let k : x 0 ≡ m.sems 0 = law.down_other m.sems x 1 0 e (omega arith) in
        let same : x 1 + stored s + 1 ≡ m.sems 1 + stored s + 0 = omega arith in
        rw (ReceiverKeeps, e)
          (record {
            one = omega (arith, v.one, d, k);
            flow = rw same v.flow;
            short = v.short;
            counted = rw same v.counted;
            sender_alive = v.sender_alive;
            receiver_alive = tt;
          })
  ]

  receive_v-Inv :
      (s : SenderPc) (m : Memory)
      → Inv mode all s releasing m
      → ReceiverKeeps mode all s (receive_v ipc m)
  unfolding receive_v
  receive_v-Inv s m v = elim (Answer-cases (ipc.sem_up m.sems 0)) [
    | inl (inl e) ↦ rw (ReceiverKeeps, e) tt
    | inl (inr e) ↦ absurd ((law.up_succeeds m.sems 0).0 e)
    | inr (x, e) ↦
        let u = law.up_done m.sems x 0 e in
        let k : x 1 ≡ m.sems 1 = law.up_other m.sems x 0 1 e (omega arith) in
        rw (ReceiverKeeps, e)
          (record {
            one = omega (arith, v.one, u, k);
            flow = rw k v.flow;
            short = v.short;
            counted = rw k v.counted;
            sender_alive = v.sender_alive;
            receiver_alive = tt;
          })
  ]

  check_exit-Inv :
      (s : SenderPc) (m : Memory)
      → Inv mode all s checking m
      → ReceiverKeeps mode all s (check_exit m)
  unfolding check_exit
  check_exit-Inv s m v = elim (Bool-cases (strcmp_eq (c_string m.received) exit_msg)) [
    | inl e ↦
        rw (ReceiverKeeps, e)
          (record {
            one = v.one;
            flow = v.flow;
            short = v.short;
            counted = v.counted;
            sender_alive = v.sender_alive;
            receiver_alive = tt;
          })
    | inr e ↦
        rw (ReceiverKeeps, e)
          (record {
            one = v.one;
            flow = append_assoc m.log (c_string m.received ∷ []) _ ∙ v.flow;
            short = v.short;
            counted = v.counted;
            sender_alive = v.sender_alive;
            receiver_alive = tt;
          })
  ]

  sender-Inv :
      (s : SenderPc) (r : ReceiverPc) (m : Memory)
      → Inv mode all s r m
      → SenderKeeps mode all r (sender ipc mode s m)
  unfolding sender
  sender-Inv reading r m v = read_next-Inv mode all r m m.file refl v
  sender-Inv (sending last) r m v = send_p-Inv ipc law mode all last r m v
  sender-Inv (storing last) r m v = send_store-Inv ipc law all mode last r m v
  sender-Inv (signalling last) r m v = send_v-Inv ipc law mode all last r m v
  sender-Inv sender_done r m v = tt
  sender-Inv sender_failed r m v = tt

  receiver-Inv :
      (s : SenderPc) (r : ReceiverPc) (m : Memory)
      → Inv mode all s r m
      → ReceiverKeeps mode all s (receiver ipc mode r m)
  unfolding receiver
  receiver-Inv s waiting m v = receive_p-Inv s m v
  receiver-Inv s loading m v = receive_load-Inv ipc law all mode s m v
  receiver-Inv s releasing m v = receive_v-Inv s m v
  receiver-Inv s checking m v = check_exit-Inv s m v
  receiver-Inv s receiver_done m v = tt
  receiver-Inv s receiver_failed m v = tt

  pub Step-Inv :
      {w w' : System}
      → Step ipc mode w w'
      → Inv mode all w.s w.r w.memory
      → Inv mode all w'.s w'.r w'.memory
  Step-Inv {w} (by_sender p m e) v =
      subst (SenderKeeps mode all w.r) e (sender-Inv w.s w.r w.memory v)
  Step-Inv {w} (by_receiver p m e) v =
      subst (ReceiverKeeps mode all w.s) e (receiver-Inv w.s w.r w.memory v)

  pub Run-Inv :
      {w w' : System}
      → Run ipc mode w w'
      → Inv mode all w.s w.r w.memory
      → Inv mode all w'.s w'.r w'.memory
  Run-Inv here v = v
  Run-Inv (next run step) v = Step-Inv step (Run-Inv run v)
