-- ===== src/Threads/Greeting.antt =====
-- Lab3/3/3_2/3_2.c with two threads, each of which adds up its rows, writes a greeting to the proc file
-- of Lab3/3/3_2/My_Kernel.c, and prints what it reads there.

pub mod Texts
pub mod Actions
pub mod Inv
pub mod Finish
mod Tests
use fall_oslab.Base.{
  ℕ, ◌≡◌, ◌/◌, List, [], ◌∷◌, ◌++◌, Option, none, some, Bool, if◌then◌else◌, length,
}
use fall_oslab.Kernel.{Result, ok, err}
use fall_oslab.Mailbox.Text.{c_string}
use fall_oslab.Mailbox.Lines.{fgets_line, fgets_rest}
use fall_oslab.Proc.Hello.{mywrite, myread}
use fall_oslab.Threads.Matrix.{Matrix, matrix_row_x, Bounds, LoopPc, for_i, loop}
use fall_oslab.Threads.Matrix.Rows.{bounds1, bounds2}

-- Where a thread stands: in its loops, at the calls of open, write and close, at the first call of
-- fgets, at a later one with the bytes that are left in the stream, at its end. Behind its first call
-- of fgets it also has what it has printed.
pub data Thread : Type 0 where
  looping : LoopPc → Thread
  opening writing closing fetching : Thread
  printing : (rest printed : List ℕ) → Thread
  returned : (printed : List ℕ) → Thread

-- copy_from_user and copy_to_user, and the stack that Myread finds.
pub record Calls : Type 0 where
  pub copy : List ℕ → ℕ → List ℕ × ℕ
  pub left : ℕ → ℕ
  pub stack : ℕ → ℕ

-- A thread: its loops, its data, its line in the module's text, and whether its open succeeds.
pub record Work : Type 0 where
  pub bounds : Bounds
  pub greeting : List ℕ
  pub info : List ℕ
  pub opens : Bool

-- z, and the module's buf.
pub record Shared : Type 0 where
  pub z : Matrix
  pub buf : ℕ → ℕ

module _ (calls : Calls) where
  -- The bytes that the stream of fptr4 or fptr5 gets: its file is at offset 0, and a second read gives
  -- none.
  unfoldable pub fetch : (info : List ℕ) (buf : ℕ → ℕ) → List ℕ
  fetch info buf =
      let out = myread calls.left buf calls.stack info 0 in
      elim (out.result) [ ok n ↦ out.ubuf | err e ↦ [] ]

  -- The next action of a thread.
  unfoldable pub thread : (work : Work) (x y : Matrix) → Thread → Shared → Option (Thread × Shared)
  thread work x y (looping p) m = elim (loop work.bounds x y p m.z) [
    | none ↦ some (opening, m)
    | some q ↦ some (looping q.0, record m { z = q.1 })
  ]
  thread work x y opening m = some (if work.opens then writing else fetching, m)
  thread work x y writing m =
      let (written, buf) = mywrite calls.copy m.buf work.greeting (length work.greeting) in
      some (closing, record m { buf = buf })
  thread work x y closing m = some (fetching, m)
  thread work x y fetching m = some (printing (fetch work.info m.buf) [], m)
  thread work x y (printing [] printed) m = some (returned printed, m)
  thread work x y (printing (c ∷ cs) printed) m =
      let buffer = fgets_line 49 (c ∷ cs) ++ (0 ∷ []) in
      some (printing (fgets_rest 49 (c ∷ cs)) (printed ++ c_string buffer), m)
  thread work x y (returned printed) m = none

pub record Process : Type 0 where
  pub t1 : Thread
  pub t2 : Thread
  pub shared : Shared

-- The threads interleave in any order.
pub data Step (calls : Calls) (work1 work2 : Work) (x y : Matrix) (w : Process)
    : Process → Type 0 where
  by_thread1 :
      (t : Thread) (m : Shared)
      → thread calls work1 x y w.t1 w.shared ≡ some (t, m)
      → Step calls work1 work2 x y w (record { t1 = t; t2 = w.t2; shared = m })
  by_thread2 :
      (t : Thread) (m : Shared)
      → thread calls work2 x y w.t2 w.shared ≡ some (t, m)
      → Step calls work1 work2 x y w (record { t1 = w.t1; t2 = t; shared = m })

-- "Thread 1 says hello!\n", and that of thread 2
abbrev says_hello : (digit : ℕ) → List ℕ
says_hello digit =
    b'T' ∷ b'h' ∷ b'r' ∷ b'e' ∷ b'a' ∷ b'd' ∷ b' ' ∷ digit ∷ b' ' ∷ b's' ∷ b'a' ∷ b'y' ∷ b's' ∷ b' '
    ∷ b'h' ∷ b'e' ∷ b'l' ∷ b'l' ∷ b'o' ∷ b'!' ∷ b'\n' ∷ []

abbrev pub greeting1 : List ℕ
greeting1 = says_hello b'1'

abbrev pub greeting2 : List ℕ
greeting2 = says_hello b'2'

-- thread1 and thread2, on the rows of the matrices of this program.
abbrev pub work1 : (info : List ℕ) (opens : Bool) → Work
work1 info opens = record {
  bounds = bounds1 1234;
  greeting = greeting1;
  info = info;
  opens = opens;
}

abbrev pub work2 : (info : List ℕ) (opens : Bool) → Work
work2 info opens = record {
  bounds = bounds2 1234;
  greeting = greeting2;
  info = info;
  opens = opens;
}

-- The process when main has created both threads; z is as malloc gave it.
abbrev pub created : (z : Matrix) (buf : ℕ → ℕ) → Process
created z buf = record {
  t1 = looping (for_i 0);
  t2 = looping (for_i (matrix_row_x / 2));
  shared = record { z = z; buf = buf };
}
