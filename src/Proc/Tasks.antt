-- ===== src/Proc/Tasks.antt =====
-- Lab3/3/3_1/My_Kernel.c: the module that lists the threads of the process that reads it.
pub mod Listing
pub mod Read
use fall_oslab.Base.{
  ℕ, ◌+◌, ◌-◌, List, [], ◌∷◌, ◌++◌, Bool, true, false, length, ltb, leb, ◌==◌, if◌then◌else◌,
  load_bytes,
}
use fall_oslab.Kernel.{Result, ok, err, efault}
use fall_oslab.Proc.Print.{snprintf}
use fall_oslab.Proc.Hello.{ReadOut}

-- BUFSIZE
abbrev pub bufsize : ℕ
bufsize = 1024

-- What Myread takes from a task_struct, an int as its 32 bits.
pub record Task : Type 0 where
  pub pid : ℕ
  pub prio : ℕ
  pub state : ℕ

-- `decimal` is the conversion %d.
module _ (decimal : ℕ → List ℕ) (tgid : ℕ) where
  -- "PID: %d, TID: %d, Priority: %d, State: %d\n"
  unfoldable pub info_line : Task → List ℕ
  info_line t =
      (b'P' ∷ b'I' ∷ b'D' ∷ b':' ∷ b' ' ∷ [])
      ++ decimal tgid
      ++ (b',' ∷ b' ' ∷ b'T' ∷ b'I' ∷ b'D' ∷ b':' ∷ b' ' ∷ [])
      ++ decimal t.pid
      ++ (b',' ∷ b' ' ∷ b'P' ∷ b'r' ∷ b'i' ∷ b'o' ∷ b'r' ∷ b'i' ∷ b't' ∷ b'y' ∷ b':' ∷ b' ' ∷ [])
      ++ decimal t.prio
      ++ (b',' ∷ b' ' ∷ b'S' ∷ b't' ∷ b'a' ∷ b't' ∷ b'e' ∷ b':' ∷ b' ' ∷ [])
      ++ decimal t.state
      ++ (b'\n' ∷ [])

  -- The loop over the threads: buf and len behind it.
  unfoldable pub thread_loop : List Task → (buf : ℕ → ℕ) → (len : ℕ) → (ℕ → ℕ) × ℕ
  thread_loop [] buf len = (buf, len)
  thread_loop (t ∷ ts) buf len = elim (t.pid == tgid) [
    | true ↦ thread_loop ts buf len
    | false ↦
        let buf' = snprintf buf len (bufsize - len) (info_line t) in
        let len' = len + length (info_line t) in
        elim (leb bufsize len') [ true ↦ (buf', len') | false ↦ thread_loop ts buf' len' ]
  ]

  -- Myread, and buf behind it. `left n` is what copy_to_user returns for n bytes, and memory from buf
  -- on goes on behind the array.
  unfoldable pub myread :
      (left : ℕ → ℕ) → (threads : List Task) → (buf : ℕ → ℕ) → (offset : ℕ) → ReadOut × (ℕ → ℕ)
  myread left threads buf offset =
      let (buf', len) = thread_loop threads buf 0 in
      if ltb 0 offset then (record { result = ok 0; offset = offset; ubuf = [] }, buf) else (
        (if left len == 0
            then record { result = ok len; offset = offset + len; ubuf = load_bytes buf' 0 len }
            else record {
              result = err efault;
              offset = offset;
              ubuf = load_bytes buf' 0 (len - left len);
            }),
        buf',
      )

-- Mywrite: what it returns, whatever is written.
unfoldable pub mywrite : List ℕ → Result ℕ
mywrite ubuf = ok 0
