-- ===== src/Mailbox/Tests.antt =====
-- Witnesses for the theorems on Lab1, with a run of both programs.
use mathlib.Core.Path.{subst}
use fall_oslab.Base.{
  ℕ, zero, suc, ◌+◌, ◌*◌, ◌≤◌, ◌≡◌, ◌≢◌, refl, sym, List, [], ◌∷◌, ◌++◌, true, arith, length,
  update, ap,
}
use fall_oslab.Mailbox.Ipc.{Answer, waits, fails, done, Bytes, Sems, Ipc, IsIpc}
use fall_oslab.Mailbox.Text.{text_of}
use fall_oslab.Mailbox.Lines.{fgets_line, fgets_rest, texts}
use fall_oslab.Mailbox.Program.{
  message_passing, sender_done, receiver_done, sender, read_next, strcmp_eq, System, Run, here,
  next, by_sender, by_receiver, send_p, send_store, send_v, receiver, receive_p, init_sems,
}
use fall_oslab.Mailbox.Invariant.{sent, sender_inside, receiver_inside}
use fall_oslab.Mailbox.Exits.{NoExit}
use fall_oslab.Mailbox.Delivery.{
  setup, start, mailbox_exclusive, log-prefix, steps, run_ends, all_delivered,
}

down : ℕ → Sems → ℕ → Answer Sems
down zero s i = waits
down (suc n) s i = done (update s i n)

send_one : List Bytes → Bytes → Answer (List Bytes)
send_one [] m = done (m ∷ [])
send_one (x ∷ q) m = waits

receive_one : List Bytes → Answer (Bytes × List Bytes)
receive_one [] = waits
receive_one (m ∷ q) = done (m, q)

abbrev ipc : Ipc
ipc = record {
  sem_down = λ s i. down (s i) s i;
  sem_up = λ s i. done (update s i (suc (s i)));
  set_val = update;
  msgsnd = send_one;
  msgrcv = receive_one;
}

value_or {ℓ} : {A : Type ℓ} → A → Answer A → A
value_or x waits = x
value_or x fails = x
value_or x (done y) = y

done-injective {ℓ} : {A : Type ℓ} {x y : A} → done x ≡ done y → x ≡ y
unfolding value_or
done-injective {x = x} e = ap (value_or x) e

down-zero : (n : ℕ) (s : Sems) (i : ℕ) → down n s i ≡ waits → n ≡ 0
unfolding down
down-zero zero s i e = refl
down-zero (suc n) s i e = ground arith

down-suc :
    (n : ℕ) (s s' : Sems) (i : ℕ)
    → down n s i ≡ done s'
    → (n ≡ suc (s' i)) × ((j : ℕ) → j ≢ i → s' j ≡ s j)
unfolding down
down-suc zero s s' i e = ground arith
down-suc (suc n) s s' i e =
    subst (λ t. (suc n ≡ suc (t i)) × ((j : ℕ) → j ≢ i → t j ≡ s j)) (done-injective e)
      (ground arith, λ j ne. ground arith)

down_goes : (n : ℕ) (s : Sems) (i : ℕ) → down n s i ≢ fails
unfolding down
down_goes zero s i e = ground arith
down_goes (suc n) s i e = ground arith

up_done_lem : (s s' : Sems) (i : ℕ) → ipc.sem_up s i ≡ done s' → s' i ≡ suc (s i)
up_done_lem s s' i e = subst (λ t. t i ≡ suc (s i)) (done-injective e) (ground arith)

up_other_lem : (s s' : Sems) (i j : ℕ) → ipc.sem_up s i ≡ done s' → j ≢ i → s' j ≡ s j
up_other_lem s s' i j e ne = subst (λ t. t j ≡ s j) (done-injective e) (ground arith)

send_waits : (q : List Bytes) (m : Bytes) → send_one q m ≡ waits → 1 ≤ length q
unfolding send_one
send_waits [] m e = ground arith
send_waits (x ∷ q) m e = omega arith

send_done : (q q' : List Bytes) (m : Bytes) → send_one q m ≡ done q' → q' ≡ q ++ (m ∷ [])
unfolding send_one
send_done [] q' m e = sym (done-injective e)
send_done (x ∷ q) q' m e = ground arith

send_goes : (q : List Bytes) (m : Bytes) → send_one q m ≢ fails
unfolding send_one
send_goes [] m e = ground arith
send_goes (x ∷ q) m e = ground arith

receive_waits : (q : List Bytes) → receive_one q ≡ waits → q ≡ []
unfolding receive_one
receive_waits [] e = refl
receive_waits (x ∷ q) e = ground arith

receive_done : (q : List Bytes) (r : Bytes × List Bytes) → receive_one q ≡ done r → q ≡ r.0 ∷ r.1
unfolding receive_one
receive_done [] r e = ground arith
receive_done (x ∷ q) r e = ap (λ p. p.0 ∷ p.1) (done-injective e)

receive_goes : (q : List Bytes) → receive_one q ≢ fails
unfolding receive_one
receive_goes [] e = ground arith
receive_goes (x ∷ q) e = ground arith

ipc-IsIpc : IsIpc ipc
unfolding down send_one receive_one
ipc-IsIpc = record {
  down_waits = λ s i e. down-zero (s i) s i e;
  down_done = λ s s' i e. (down-suc (s i) s s' i e).0;
  down_other = λ s s' i j e ne. (down-suc (s i) s s' i e).1 j ne;
  down_succeeds = λ s i e. down_goes (s i) s i e;
  up_done = λ s s' i e. up_done_lem s s' i e;
  up_other = λ s s' i j e ne. up_other_lem s s' i j e ne;
  up_succeeds = λ s i. (λ e. ground arith, λ e. ground arith);
  set_val_lem = λ s i v j. refl;
  snd_waits = λ q m e. send_waits q m e;
  snd_done = λ q q' m e. send_done q q' m e;
  snd_succeeds = λ q m e. send_goes q m e;
  rcv_waits = λ q e. receive_waits q e;
  rcv_done = λ q r e. receive_done q r e;
  rcv_succeeds = λ q e. receive_goes q e;
}

-- The bytes of a file with two lines, the last one without a newline.
abbrev lines : Bytes
lines = b'a' ∷ b'\n' ∷ b'b' ∷ []

abbrev before : System
before = start ipc ipc-IsIpc message_passing true (λ i. 7) lines [] []

lines-texts : texts lines ≡ (b'a' ∷ []) ∷ (b'b' ∷ []) ∷ []
unfolding fgets_line fgets_rest text_of
lines-texts = refl

first_run : (w : System) × Run ipc message_passing before w
unfolding sender read_next send_p send_store send_v receiver receive_p down send_one setup init_sems
first_run = (
  _,
  next
      (next (next (next (next here (by_sender _ _ refl)) (by_sender _ _ refl)) (by_sender _ _ refl))
        (by_sender _ _ refl))
      (by_receiver _ _ refl),
)

lines-NoExit : NoExit (texts lines)
unfolding fgets_line fgets_rest text_of strcmp_eq
lines-NoExit = (refl, (refl, tt))

mailbox_exclusive_example : sender_inside first_run.0.s + receiver_inside first_run.0.r ≤ 1
mailbox_exclusive_example =
    mailbox_exclusive ipc ipc-IsIpc message_passing true (λ i. 7) lines [] [] first_run.1

log-prefix_example : (rest : List Bytes) × (first_run.0.memory.log ++ rest ≡ sent lines)
log-prefix_example = log-prefix ipc ipc-IsIpc message_passing true (λ i. 7) lines [] [] first_run.1

run_ends_example : steps ipc ipc-IsIpc first_run.1 ≤ 10 * length lines + 10
run_ends_example = run_ends ipc ipc-IsIpc message_passing true (λ i. 7) lines [] [] first_run.1

all_delivered_example :
    (w : System) × Run ipc message_passing first_run.0 w
    × (w.s ≡ sender_done)
    × (w.r ≡ receiver_done)
    × (w.memory.log ≡ texts lines)
all_delivered_example =
    all_delivered ipc ipc-IsIpc message_passing true (λ i. 7) lines [] [] lines-NoExit first_run.1
