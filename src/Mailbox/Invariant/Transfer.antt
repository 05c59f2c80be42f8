-- ===== src/Mailbox/Invariant/Transfer.antt =====
-- Lab1: storing to the mailbox and loading from it keep the invariant.
use fall_oslab.Base.{suc, ◌≡◌, ap, sym, ◌∙◌, List, [], ◌∷◌, ◌++◌, Bool, arith, inl, inr, length}
use fall_oslab.Mailbox.Ipc.{Bytes, Ipc, IsIpc}
use fall_oslab.Mailbox.Program.{
  Mode, message_passing, shared_memory, SenderPc, storing, signalling, ReceiverPc, loading,
  releasing, Memory, send_store, receive_load,
}
use fall_oslab.Mailbox.Invariant.{
  Inv, SenderKeeps, ReceiverKeeps, Answer-cases, empty_list, occupied, c_string-set-strncpy_short,
  c_string-strncpy_short,
}
use fall_oslab.Mailbox.Invariant.Actions.{free_slot, full_slot}

module _ (ipc : Ipc) (law : IsIpc ipc) (all : List Bytes) where
  pub send_store-Inv :
      (mode : Mode) (last : Bool) (r : ReceiverPc) (m : Memory)
      → Inv mode all (storing last) r m
      → SenderKeeps mode all r (send_store ipc mode last m)
  unfolding send_store
  send_store-Inv message_passing last r m v =
      let (f, g) = free_slot message_passing all last r m v in
      let empty : m.queue ≡ [] = empty_list m.queue (omega (arith, v.counted)) in
      elim (Answer-cases (ipc.msgsnd m.queue m.message)) [
        | inl (inl e) ↦ rw (SenderKeeps, e) tt
        | inl (inr e) ↦ absurd (law.snd_succeeds m.queue m.message e)
        | inr (q, e) ↦
            let h : q ≡ m.message ∷ [] =
              law.snd_done m.queue q m.message e ∙ ap (λ t. t ++ (m.message ∷ [])) empty in
            rw (SenderKeeps, e)
              (record {
                one = v.one;
                flow = rw h (rw empty at v.flow);
                short = tt;
                counted = rw h (omega arith);
                sender_alive = tt;
                receiver_alive = v.receiver_alive;
              })
      ]
  send_store-Inv shared_memory last r m v =
      let (f, g) = free_slot shared_memory all last r m v in
      let s = c_string-set-strncpy_short m.message v.short in
      let before : occupied (storing last) r m.sems ≡ 0 = omega arith in
      let behind : occupied (signalling last) r m.sems ≡ 1 = omega arith in
      record {
        one = v.one;
        flow = rw (behind, s) (rw before at v.flow);
        short = tt;
        counted = rw s v.short;
        sender_alive = tt;
        receiver_alive = v.receiver_alive;
      }

  pub receive_load-Inv :
      (mode : Mode) (s : SenderPc) (m : Memory)
      → Inv mode all s loading m
      → ReceiverKeeps mode all s (receive_load ipc mode m)
  unfolding receive_load
  receive_load-Inv message_passing s m v =
      let (f, g) = full_slot message_passing all s m v in
      elim (Answer-cases (ipc.msgrcv m.queue)) [
        | inl (inl e) ↦ rw (ReceiverKeeps, e) tt
        | inl (inr e) ↦ absurd (law.rcv_succeeds m.queue e)
        | inr (x, e) ↦
            let h : m.queue ≡ x.0 ∷ x.1 = law.rcv_done m.queue x e in
            let size : suc (length x.1) ≡ length m.queue = sym (ap length h) in
            let rest : x.1 ≡ [] = empty_list x.1 (omega (arith, v.counted, size)) in
            rw (ReceiverKeeps, e)
              (record {
                one = v.one;
                flow = rw rest (rw (h, rest) at v.flow);
                short = v.short;
                counted = rw rest (omega arith);
                sender_alive = v.sender_alive;
                receiver_alive = tt;
              })
      ]
  receive_load-Inv shared_memory s m v =
      let (f, g) = full_slot shared_memory all s m v in
      let t = c_string-strncpy_short m.shm v.counted in
      let before : occupied s loading m.sems ≡ 1 = omega arith in
      let behind : occupied s releasing m.sems ≡ 0 = omega arith in
      record {
        one = v.one;
        flow = rw (behind, t) (rw before at v.flow);
        short = v.short;
        counted = v.counted;
        sender_alive = v.sender_alive;
        receiver_alive = tt;
      }
