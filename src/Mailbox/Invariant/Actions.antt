-- ===== src/Mailbox/Invariant/Actions.antt =====
-- Lab1: the actions that read, wait and signal keep the invariant.
use fall_oslab.Base.{
  suc, ◌+◌, ◌≡◌, ap, sym, ◌∙◌, List, [], ◌∷◌, ◌++◌, Bool, true, false, if◌then◌else◌, arith, inl,
  inr, length, drop,
}
use fall_oslab.Mailbox.Ipc.{done, Bytes, Sems, Ipc, IsIpc}
use fall_oslab.Mailbox.Text.{c_string, strncpy}
use fall_oslab.Mailbox.Lines.{
  fgets_line, fgets_rest, texts-cons, c_string-stored_line, length-text_of-fgets_line,
}
use fall_oslab.Mailbox.Program.{
  Mode, exit_msg, SenderPc, reading, sending, storing, signalling, sender_done, sender_failed,
  ReceiverPc, waiting, loading, releasing, checking, receiver_done, receiver_failed, Memory,
  read_next, send_p, send_v,
}
use fall_oslab.Mailbox.Invariant.{
  Answer-cases, Inv, SenderKeeps, c_string-exit_msg, c_string-strncpy_short, held, occupied, sent,
  slot, stored, taken,
}

module _ (mode : Mode) (all : List Bytes) (r : ReceiverPc) (m : Memory) where
  pub read_next-Inv :
      (file : Bytes)
      → m.file ≡ file
      → Inv mode all reading r m
      → SenderKeeps mode all r (read_next file m)
  unfolding read_next
  read_next-Inv [] e v =
      let s : c_string (strncpy 1023 exit_msg ++ (0 ∷ [])) ≡ exit_msg =
        c_string-strncpy_short exit_msg (rw c_string-exit_msg (omega arith)) ∙ c_string-exit_msg in
      record {
        one = v.one;
        flow =
            ap
              (λ t.
                m.log
                ++ (held r m.received
                    ++ (slot mode (occupied reading r m.sems) m.shm m.queue ++ t)))
              (ap (λ t. t ∷ []) s ∙ ap sent (sym e))
            ∙ v.flow;
        short = rw s (omega arith);
        counted = v.counted;
        sender_alive = tt;
        receiver_alive = v.receiver_alive;
      }
  read_next-Inv (c ∷ cs) e v =
      let line = fgets_line 1023 (c ∷ cs) in
      let s = c_string-stored_line line (drop (length line + 1) m.message) in
      record {
        one = v.one;
        flow =
            ap
              (λ t.
                m.log
                ++ (held r m.received
                    ++ (slot mode (occupied reading r m.sems) m.shm m.queue ++ t)))
              (ap (λ t. t ∷ sent (fgets_rest 1023 (c ∷ cs))) s
                ∙ ap (λ t. t ++ (exit_msg ∷ [])) (sym (texts-cons c cs))
                ∙ ap sent (sym e))
            ∙ v.flow;
        short = rw s (length-text_of-fgets_line (c ∷ cs));
        counted = v.counted;
        sender_alive = tt;
        receiver_alive = v.receiver_alive;
      }

module _ (ipc : Ipc) (law : IsIpc ipc) (mode : Mode) (all : List Bytes) where
  pub send_p-Inv :
      (last : Bool) (r : ReceiverPc) (m : Memory)
      → Inv mode all (sending last) r m
      → SenderKeeps mode all r (send_p ipc last m)
  unfolding send_p
  send_p-Inv last r m v = elim (Answer-cases (ipc.sem_down m.sems 0)) [
    | inl (inl e) ↦ rw (SenderKeeps, e) tt
    | inl (inr e) ↦ absurd (law.down_succeeds m.sems 0 e)
    | inr (s, e) ↦
        let d = law.down_done m.sems s 0 e in
        let k : s 1 ≡ m.sems 1 = law.down_other m.sems s 0 1 e (omega arith) in
        rw (SenderKeeps, e)
          (record {
            one = omega (arith, v.one, d, k);
            flow = rw k v.flow;
            short = v.short;
            counted = rw k v.counted;
            sender_alive = tt;
            receiver_alive = v.receiver_alive;
          })
  ]

  pub send_v-Inv :
      (last : Bool) (r : ReceiverPc) (m : Memory)
      → Inv mode all (signalling last) r m
      → SenderKeeps mode all r (send_v ipc last m)
  unfolding send_v
  send_v-Inv last r m v = elim (Answer-cases (ipc.sem_up m.sems 1)) [
    | inl (inl e) ↦ absurd ((law.up_succeeds m.sems 1).1 e)
    | inl (inr e) ↦ absurd ((law.up_succeeds m.sems 1).0 e)
    | inr (s, e) ↦ rw (SenderKeeps, e) (after_v last s e v)
  ]
    where
      same : (s : Sems) → s 1 ≡ suc (m.sems 1) → s 1 + 0 + taken r ≡ m.sems 1 + 1 + taken r
      same s h = omega arith

      after_v :
          (last : Bool) (s : Sems)
          → ipc.sem_up m.sems 1 ≡ done s
          → Inv mode all (signalling last) r m
          → Inv mode all (if last then sender_done else reading) r (record m { sems = s })
      after_v true s e v =
          let u = law.up_done m.sems s 1 e in
          let k : s 0 ≡ m.sems 0 = law.up_other m.sems s 1 0 e (omega arith) in
          record {
            one = omega (arith, v.one, u, k);
            flow = rw (same s u) v.flow;
            short = tt;
            counted = rw (same s u) v.counted;
            sender_alive = tt;
            receiver_alive = v.receiver_alive;
          }
      after_v false s e v =
          let u = law.up_done m.sems s 1 e in
          let k : s 0 ≡ m.sems 0 = law.up_other m.sems s 1 0 e (omega arith) in
          record {
            one = omega (arith, v.one, u, k);
            flow = rw (same s u) v.flow;
            short = tt;
            counted = rw (same s u) v.counted;
            sender_alive = tt;
            receiver_alive = v.receiver_alive;
          }

-- Nothing else is in the mailbox when the sender stores.
pub free_slot :
    (mode : Mode) (all : List Bytes) (last : Bool) (r : ReceiverPc) (m : Memory)
    → Inv mode all (storing last) r m
    → (m.sems 1 ≡ 0) × (taken r ≡ 0)
free_slot mode all last waiting m v = omega (arith, v.one)
free_slot mode all last loading m v = omega (arith, v.one)
free_slot mode all last releasing m v = omega (arith, v.one)
free_slot mode all last checking m v = omega (arith, v.one)
free_slot mode all last receiver_done m v = omega (arith, v.one)
free_slot mode all last receiver_failed m v = omega (arith, v.one)

-- It is the only message there when the receiver loads it.
pub full_slot :
    (mode : Mode) (all : List Bytes) (s : SenderPc) (m : Memory)
    → Inv mode all s loading m
    → (m.sems 1 ≡ 0) × (stored s ≡ 0)
full_slot mode all reading m v = omega (arith, v.one)
full_slot mode all (sending last) m v = omega (arith, v.one)
full_slot mode all (storing last) m v = omega (arith, v.one)
full_slot mode all (signalling last) m v = omega (arith, v.one)
full_slot mode all sender_done m v = omega (arith, v.one)
full_slot mode all sender_failed m v = omega (arith, v.one)
