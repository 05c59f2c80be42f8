-- ===== src/Threads/Greeting/Tests.antt =====
-- A witness for the theorem on Lab3/3/3_2/3_2.c, and a run in which a thread prints the other's greeting.
use fall_oslab.Base.{
  ℕ, ◌<◌, ◌≡◌, ◌⊎◌, refl, List, [], ◌∷◌, ◌++◌, length, true, arith, add32, lt→leb, ◌^◌, store_bytes,
  load_bytes,
}
use fall_oslab.Fixture.{copy_all, copy_all-IsCopy}
use fall_oslab.Mailbox.Text.{c_string}
use fall_oslab.Mailbox.Lines.{fgets_line, fgets_rest}
use fall_oslab.Proc.Hello.{bufsize, mywrite, myread}
use fall_oslab.Threads.Steps.{Run, here, next}
use fall_oslab.Threads.Matrix.{Matrix, matrix_row_x, loop, product}
use fall_oslab.Threads.Greeting.{
  Calls, Process, Step, by_thread1, by_thread2, thread, fetch, returned, writing, created, work1,
  work2, greeting1, greeting2,
}
use fall_oslab.Threads.Greeting.Texts.{Works}
use fall_oslab.Threads.Greeting.Finish.{greetings_finish}

abbrev calls : Calls
calls = record { copy = copy_all; left = λ n. 0; stack = λ i. 9 }

copy_all_short : (text : List ℕ) → length text < bufsize → (copy_all text (length text)).1 ≡ 0
unfolding copy_all
copy_all_short text h = rw (lt→leb (2 ^ 31) (length text) (omega arith)) refl

calls-Works : Works calls
calls-Works = record { law = copy_all-IsCopy; copies_in = copy_all_short; copies_out = λ n h. refl }

-- "1\n" and "2\n"
abbrev line1 : List ℕ
line1 = b'1' ∷ b'\n' ∷ []

abbrev line2 : List ℕ
line2 = b'2' ∷ b'\n' ∷ []

abbrev ones : Matrix
ones i j = 1

abbrev Action : Process → Process → Type 0
Action = Step calls (work1 line1 true) (work2 line2 true) ones ones

-- Each thread has come to a test of its loop over j.
started : (w : Process) × Run Action (created ones (λ i. 0)) w
unfolding thread loop
started = (_, next (next here (by_thread1 _ _ refl)) (by_thread2 _ _ refl))

greetings_finish_example :
    (w : Process) × (p1 : List ℕ) × (p2 : List ℕ) × Run Action started.0 w
    × (w.t1 ≡ returned p1)
    × (w.t2 ≡ returned p2)
    × ((p q : ℕ) → p < matrix_row_x → q < 1234 → w.shared.z p q ≡ add32 1 (product ones ones p q))
    × (((p1 ≡ greeting1 ++ line1) × (p2 ≡ greeting2 ++ line2))
        ⊎ ((p1 ≡ greeting2 ++ line1) × (p2 ≡ greeting2 ++ line2))
        ⊎ ((p1 ≡ greeting1 ++ line1) × (p2 ≡ greeting1 ++ line2)))
greetings_finish_example =
    greetings_finish calls calls-Works line1 line2 (refl, (refl, tt)) (refl, (refl, tt))
      (omega arith) (omega arith) ones ones ones (λ i. 0) (λ p q. omega arith) started.1

-- Both threads are behind their loops; thread 2 writes behind thread 1, and thread 1 reads then.
abbrev at_write : Process
at_write = record { t1 = writing; t2 = writing; shared = record { z = ones; buf = λ i. 0 } }

other_greeting : (w : Process) × Run Action at_write w × (w.t1 ≡ returned (greeting2 ++ line1))
unfolding thread fetch mywrite myread copy_all c_string load_bytes store_bytes fgets_line fgets_rest
other_greeting = (
  _,
  next
      (next
        (next
          (next
            (next (next (next here (by_thread1 _ _ refl)) (by_thread2 _ _ refl))
              (by_thread1 _ _ refl))
            (by_thread1 _ _ refl))
          (by_thread1 _ _ refl))
        (by_thread1 _ _ refl))
      (by_thread1 _ _ refl),
  refl,
)
