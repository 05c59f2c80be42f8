-- ===== src/Mailbox/Program.antt =====
-- Lab1/sender.c and Lab1/receiver.c: the two programs after their setup, an action at a time.
use fall_oslab.Base.{
  ◌+◌, ◌≡◌, List, [], ◌∷◌, ◌++◌, Option, none, some, Bool, true, false, ◌==◌, ◌&&◌, if◌then◌else◌,
  drop, length,
}
use fall_oslab.Mailbox.Ipc.{waits, fails, done, Bytes, Sems, Ipc}
use fall_oslab.Mailbox.Text.{c_string, strncpy, set}
use fall_oslab.Mailbox.Lines.{fgets_line, fgets_rest, stored_line}

-- The command line's flag: 1 or 2.
pub data Mode : Type 0 where
  message_passing shared_memory : Mode

-- EXIT_MSG
abbrev pub exit_msg : Bytes
exit_msg = b'e' ∷ b'x' ∷ b'i' ∷ b't' ∷ []

-- Where the sender stands: at fgets, at P(empty), in front of the store, at V(full). `last` tells
-- whether the message is EXIT_MSG.
pub data SenderPc : Type 0 where
  reading : SenderPc
  sending : (last : Bool) → SenderPc
  storing : (last : Bool) → SenderPc
  signalling : (last : Bool) → SenderPc
  sender_done sender_failed : SenderPc

-- Where the receiver stands: at P(full), in front of the load, at V(empty), at strcmp.
pub data ReceiverPc : Type 0 where
  waiting loading releasing checking receiver_done receiver_failed : ReceiverPc

-- What the programs read and write: the rest of the file, message.msgText of each, the lines that
-- the receiver has printed, the semaphores, the shared memory and the queue.
pub record Memory : Type 0 where
  pub file : Bytes
  pub message : Bytes
  pub received : Bytes
  pub log : List Bytes
  pub sems : Sems
  pub shm : Bytes
  pub queue : List Bytes

-- strcmp(s, t) == 0, of two strings
unfoldable pub strcmp_eq : Bytes → Bytes → Bool
strcmp_eq [] [] = true
strcmp_eq [] (d ∷ ds) = false
strcmp_eq (c ∷ cs) [] = false
strcmp_eq (c ∷ cs) (d ∷ ds) = c == d && strcmp_eq cs ds

-- The head of the loop over fgets; at the end of the file the message becomes EXIT_MSG.
unfoldable pub read_next : (file : Bytes) → Memory → Option (SenderPc × Memory)
read_next [] m = some (sending true, record m { message = strncpy 1023 exit_msg ++ (0 ∷ []) })
read_next (c ∷ cs) m =
    let line = fgets_line 1023 (c ∷ cs) in
    some (
      sending false,
      record m {
        file = fgets_rest 1023 (c ∷ cs);
        message = stored_line line (drop (length line + 1) m.message);
      },
    )

-- The loop of main behind receive: it ends at EXIT_MSG, and prints any other message.
unfoldable pub check_exit : Memory → Option (ReceiverPc × Memory)
check_exit m =
    let text = c_string m.received in
    some (
      if strcmp_eq text exit_msg
      then (receiver_done, m)
      else (waiting, record m { log = m.log ++ (text ∷ []) }))

-- Both programs.
pub record System : Type 0 where
  pub s : SenderPc
  pub r : ReceiverPc
  pub memory : Memory

module _ (ipc : Ipc) where
  -- P(semid, 0)
  unfoldable pub send_p : (last : Bool) → Memory → Option (SenderPc × Memory)
  send_p last m = elim (ipc.sem_down m.sems 0) [
    | waits ↦ none
    | fails ↦ some (sender_failed, m)
    | done s ↦ some (storing last, record m { sems = s })
  ]

  -- msgsnd of msgText, or strncpy(shm_ptr, msgText, 1024) with shm_ptr[1023] = 0
  unfoldable pub send_store : Mode → (last : Bool) → Memory → Option (SenderPc × Memory)
  send_store message_passing last m = elim (ipc.msgsnd m.queue m.message) [
    | waits ↦ none
    | fails ↦ some (sender_failed, m)
    | done q ↦ some (signalling last, record m { queue = q })
  ]
  send_store shared_memory last m =
      some (signalling last, record m { shm = set (strncpy 1024 m.message) 1023 0 })

  -- V(semid, 1), and what follows in main
  unfoldable pub send_v : (last : Bool) → Memory → Option (SenderPc × Memory)
  send_v last m = elim (ipc.sem_up m.sems 1) [
    | waits ↦ none
    | fails ↦ some (sender_failed, m)
    | done s ↦ some (if last then sender_done else reading, record m { sems = s })
  ]

  -- The sender's next action: `none` if it waits or has ended.
  unfoldable pub sender : Mode → SenderPc → Memory → Option (SenderPc × Memory)
  sender mode reading m = read_next m.file m
  sender mode (sending last) m = send_p last m
  sender mode (storing last) m = send_store mode last m
  sender mode (signalling last) m = send_v last m
  sender mode sender_done m = none
  sender mode sender_failed m = none

  -- P(semid, 1)
  unfoldable pub receive_p : Memory → Option (ReceiverPc × Memory)
  receive_p m = elim (ipc.sem_down m.sems 1) [
    | waits ↦ none
    | fails ↦ some (receiver_failed, m)
    | done s ↦ some (loading, record m { sems = s })
  ]

  -- msgrcv, or strncpy(msgText, shm_addr, 1023) with msgText[1023] = 0
  unfoldable pub receive_load : Mode → Memory → Option (ReceiverPc × Memory)
  receive_load message_passing m = elim (ipc.msgrcv m.queue) [
    | waits ↦ none
    | fails ↦ some (receiver_failed, m)
    | done r ↦ some (releasing, record m { received = r.0; queue = r.1 })
  ]
  receive_load shared_memory m =
      some (releasing, record m { received = strncpy 1023 m.shm ++ (0 ∷ []) })

  -- V(semid, 0)
  unfoldable pub receive_v : Memory → Option (ReceiverPc × Memory)
  receive_v m = elim (ipc.sem_up m.sems 0) [
    | waits ↦ none
    | fails ↦ some (receiver_failed, m)
    | done s ↦ some (checking, record m { sems = s })
  ]

  unfoldable pub receiver : Mode → ReceiverPc → Memory → Option (ReceiverPc × Memory)
  receiver mode waiting m = receive_p m
  receiver mode loading m = receive_load mode m
  receiver mode releasing m = receive_v m
  receiver mode checking m = check_exit m
  receiver mode receiver_done m = none
  receiver mode receiver_failed m = none

  -- The two programs interleave in any order.
  pub data Step (mode : Mode) (w : System) : System → Type 0 where
    by_sender :
        (p : SenderPc) (m : Memory)
        → sender mode w.s w.memory ≡ some (p, m)
        → Step mode w (record { s = p; r = w.r; memory = m })
    by_receiver :
        (p : ReceiverPc) (m : Memory)
        → receiver mode w.r w.memory ≡ some (p, m)
        → Step mode w (record { s = w.s; r = p; memory = m })

  pub data Run (mode : Mode) (w : System) : System → Type 0 where
    here : Run mode w w
    next : {u v : System} → Run mode w u → Step mode u v → Run mode w v

-- The semaphores as both programs set them: `empty` is 1 and `full` is 0.
unfoldable pub init_sems : Ipc → Sems → Sems
init_sems ipc s = ipc.set_val (ipc.set_val s 0 1) 1 0

-- receiver.c: only the program that has created the semaphore set initialises it.
unfoldable pub receiver_init : Ipc → (created : Bool) → Sems → Sems
receiver_init ipc created s = if created then init_sems ipc s else s
