-- ===== src/Mailbox/Delivery.antt =====
-- Lab1: what the sender and the receiver promise, from their setup on.
use fall_oslab.Base.{
  ℕ, zero, suc, ◌+◌, ◌*◌, ◌≤◌, ◌≡◌, ap, sym, ◌∙◌, List, [], ◌++◌, Bool, true, false, if◌then◌else◌,
  arith, inl, inr, ◌⊎◌, length,
}
use fall_oslab.Mailbox.Ipc.{Bytes, Sems, Ipc, IsIpc}
use fall_oslab.Mailbox.Text.{zeros, c_string}
use fall_oslab.Mailbox.Lines.{texts}
use fall_oslab.Mailbox.Program.{
  Mode, message_passing, shared_memory, reading, sender_done, waiting, receiver_done, System, Step,
  by_sender, by_receiver, Run, here, next, init_sems, receiver_init,
}
use fall_oslab.Mailbox.Invariant.{Inv, Counted, sent, occupied, sender_inside, receiver_inside}
use fall_oslab.Mailbox.Invariant.Steps.{Run-Inv, Step-Inv}
use fall_oslab.Mailbox.Ending.{slot_empty, sender-Moves, receiver-Moves, idle_ends}
use fall_oslab.Mailbox.Exits.{NoExit, Exits, Run-Exits, Step-Exits}
use fall_oslab.Mailbox.Measure.{measure, Step-measure}

-- The semaphores after both setups: the sender always sets them, the receiver if its semget is the
-- one that creates the set, which it is when it comes first.
unfoldable pub setup : Ipc → (receiver_first : Bool) → Sems → Sems
setup ipc receiver_first s =
    if receiver_first
    then init_sems ipc (receiver_init ipc true s)
    else receiver_init ipc false (init_sems ipc s)

-- Both programs in front of their loops. The shared memory has been cleared, and the queue is empty.
abbrev pub started : (file message received : Bytes) → Sems → System
started file message received sems = record {
  s = reading;
  r = waiting;
  memory = record {
    file = file;
    message = message;
    received = received;
    log = [];
    sems = sems;
    shm = zeros 1024;
    queue = [];
  };
}

start-Counted : (mode : Mode) (n : ℕ) → n ≡ 0 → Counted mode n (zeros 1024) []
unfolding c_string
start-Counted message_passing n e = sym e
start-Counted shared_memory n e = omega arith

module _ (ipc : Ipc) (law : IsIpc ipc) where
  init_sems_lem : (s : Sems) → (init_sems ipc s 0 ≡ 1) × (init_sems ipc s 1 ≡ 0)
  unfolding init_sems
  init_sems_lem s = (
    law.set_val_lem (ipc.set_val s 0 1) 1 0 0 ∙ law.set_val_lem s 0 1 0,
    law.set_val_lem (ipc.set_val s 0 1) 1 0 1,
  )

  setup_lem :
      (receiver_first : Bool) (s : Sems)
      → (setup ipc receiver_first s 0 ≡ 1) × (setup ipc receiver_first s 1 ≡ 0)
  unfolding setup receiver_init
  setup_lem true s = init_sems_lem (init_sems ipc s)
  setup_lem false s = init_sems_lem s

  module _ (mode : Mode) (receiver_first : Bool) (sems : Sems) (file message received : Bytes) where
    abbrev pub start : System
    start = started file message received (setup ipc receiver_first sems)

    start-Inv : Inv mode (sent file) reading waiting start.memory
    start-Inv =
        let (e, f) = setup_lem receiver_first sems in
        let n = occupied reading waiting (setup ipc receiver_first sems) in
        let c = start-Counted mode n (omega arith) in
        record {
          one = omega (arith, e, f);
          flow = ap (λ q. q ++ sent file) (slot_empty mode n (zeros 1024) [] (omega arith) c);
          short = tt;
          counted = c;
          sender_alive = tt;
          receiver_alive = tt;
        }

    module _ {w : System} (run : Run ipc mode start w) where
      -- The sender is not between its P and its V while the receiver is between its own, in any state
      -- that the two programs reach, for either flag: no text is loaded while one is stored.
      pub mailbox_exclusive : sender_inside w.s + receiver_inside w.r ≤ 1
      mailbox_exclusive = omega (arith, (Run-Inv ipc law mode (sent file) run start-Inv).one)

      -- In any state that the two programs reach, for either flag: what the receiver has printed is a
      -- first part of the file's texts and the exit message behind them, in their order.
      pub log-prefix : (rest : List Bytes) × (w.memory.log ++ rest ≡ sent file)
      log-prefix = (_, (Run-Inv ipc law mode (sent file) run start-Inv).flow)

  progress :
      (mode : Mode) (file : Bytes) {w : System}
      → NoExit (texts file)
      → Inv mode (sent file) w.s w.r w.memory
      → Exits w.r w.memory
      → ((w' : System) × Step ipc mode w w')
        ⊎ ((w.s ≡ sender_done) × (w.r ≡ receiver_done) × (w.memory.log ≡ texts file))
  progress mode file {w} n v x = elim (sender-Moves ipc law mode (sent file) w.s w.r w.memory v) [
    | inl (p, e) ↦ inl (_, by_sender p.0 p.1 e)
    | inr si ↦ elim (receiver-Moves ipc law mode (sent file) w.s w.r w.memory v) [
      | inl (p, e) ↦ inl (_, by_receiver p.0 p.1 e)
      | inr ri ↦ inr (idle_ends mode file w.s w.r w.memory v x n si ri)
    ]
  ]

  -- A state is left by a step while there is one; the measure is fuel enough.
  finish :
      (fuel : ℕ) (mode : Mode) (file : Bytes) {u w : System}
      → measure w.s w.r w.memory ≤ fuel
      → NoExit (texts file)
      → Run ipc mode u w
      → Inv mode (sent file) w.s w.r w.memory
      → Exits w.r w.memory
      → (w' : System) × Run ipc mode u w'
        × (w'.s ≡ sender_done)
        × (w'.r ≡ receiver_done)
        × (w'.memory.log ≡ texts file)
  finish zero mode file {w} h n run v x = elim (progress mode file {w = w} n v x) [
    | inl (w', st) ↦ absurd (omega (arith, Step-measure ipc law st))
    | inr e ↦ (w, run, e.0, e.1, e.2)
  ]
  finish (suc f) mode file {w} h n run v x = elim (progress mode file {w = w} n v x) [
    | inl (w', st) ↦
        finish f mode file (omega (arith, Step-measure ipc law st)) n (next run st)
          (Step-Inv ipc law mode (sent file) st v) (Step-Exits ipc mode st x)
    | inr e ↦ (w, run, e.0, e.1, e.2)
  ]

  abbrev pub steps : {mode : Mode} {u w : System} → Run ipc mode u w → ℕ
  steps here = 0
  steps (next run st) = suc (steps run)

  steps_bounded :
      {mode : Mode} {u w : System} (run : Run ipc mode u w)
      → steps run + measure w.s w.r w.memory ≤ measure u.s u.r u.memory
  steps_bounded here = omega arith
  steps_bounded (next run st) = omega (arith, steps_bounded run, Step-measure ipc law st)

  module _ (mode : Mode) (receiver_first : Bool) (sems : Sems) (file message received : Bytes) where
    -- Every run of the two programs ends: it has at most ten actions for each byte of the file, and
    -- ten more, whatever the order in which the programs are run.
    pub run_ends :
        {w : System} (run : Run ipc mode (start mode receiver_first sems file message received) w)
        → steps run ≤ 10 * length file + 10
    run_ends run = omega (arith, steps_bounded run, (setup_lem receiver_first sems).1)

    -- For a file with no line that reads "exit": from every state that the two programs reach, in any
    -- order of their actions and for either flag, they go on to the end of both, where the receiver has
    -- printed all texts of the file in their order.
    pub all_delivered :
        {w : System}
        → NoExit (texts file)
        → Run ipc mode (start mode receiver_first sems file message received) w
        → (w' : System) × Run ipc mode w w'
          × (w'.s ≡ sender_done)
          × (w'.r ≡ receiver_done)
          × (w'.memory.log ≡ texts file)
    all_delivered {w} n run =
        finish (measure w.s w.r w.memory) mode file (omega arith) n here
          (Run-Inv ipc law mode (sent file) run
            (start-Inv mode receiver_first sems file message received))
          (Run-Exits ipc mode run tt)
