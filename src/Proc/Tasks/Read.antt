-- ===== src/Proc/Tasks/Read.antt =====
-- Lab3/3/3_1/My_Kernel.c: what a process reads of the list of its threads.
use native.Mathlib.Decide.{dec_le}
use fall_oslab.Base.{
  ℕ, ◌+◌, ◌-◌, ◌<◌, ◌≡◌, refl, ap, ◌∙◌, List, [], ◌∷◌, ◌++◌, arith, length, take, ◌⊎◌, inl, inr,
  load_bytes, length-append, length-take, load_bytes_none, lt→ltb, ne→==, ◌≤◌,
}
use fall_oslab.Kernel.{ok, err, efault}
use fall_oslab.Proc.Hello.{ReadOut}
use fall_oslab.Proc.Tasks.{bufsize, Task, thread_loop, myread}
use fall_oslab.Proc.Tasks.Listing.{listing, Cut, Listed, Going, thread_loop-Listed}

-- copy_to_user from an array of `size` bytes, for a user's buffer that can be written: its size check
-- (check_copy_size) refuses more than the array holds, and then it copies nothing.
pub record IsChecked (size : ℕ) (left : ℕ → ℕ) : Type 0 where
  pub copies : (n : ℕ) → n ≤ size → left n ≡ 0
  pub refuses : (n : ℕ) → size < n → left n ≡ n

-- The user reads nothing and gets -EFAULT.
abbrev pub refused : ReadOut
refused = record { result = err efault; offset = 0; ubuf = [] }

module _ (decimal : ℕ → List ℕ) (tgid : ℕ) where
  -- The user reads `text`, the result and the offset are its length.
  abbrev pub reads : (text : List ℕ) → ReadOut
  reads text = record { result = ok (length text); offset = length text; ubuf = text }

  myread-refused :
      (left : ℕ → ℕ) (threads : List Task) (buf : ℕ → ℕ)
      → let len = (thread_loop decimal tgid threads buf 0).1 in
        1 ≤ len → left len ≡ len → (myread decimal tgid left threads buf 0).0 ≡ refused
  unfolding myread
  myread-refused left threads buf some_line e =
      let (buf', len) = thread_loop decimal tgid threads buf 0 in
      rw (e, ne→== len 0 (omega (arith, some_line)))
        (ap (λ u. record { result = err efault; offset = 0; ubuf = u })
          (load_bytes_none buf' 0 (len - len) (omega arith)))

  myread-thread_loop :
      (left : ℕ → ℕ) (threads : List Task) (buf : ℕ → ℕ) (text : List ℕ)
      → left (length text) ≡ 0
      → let (buf', len) = thread_loop decimal tgid threads buf 0 in
        len ≡ length text
        → load_bytes buf' 0 len ≡ text
        → (myread decimal tgid left threads buf 0).0 ≡ reads text
  unfolding myread
  myread-thread_loop left threads buf text done e stored =
      let (buf', len) = thread_loop decimal tgid threads buf 0 in
      rw (stored, e, done)
        (ap (λ o. record { result = ok (length text); offset = o; ubuf = text })
          {x = 0 + length text} (omega arith))

  later :
      (left : ℕ → ℕ) (threads : List Task) (buf : ℕ → ℕ) (offset : ℕ)
      → 0 < offset
      → myread decimal tgid left threads buf offset
        ≡ (record { result = ok 0; offset = offset; ubuf = [] }, buf)
  unfolding myread
  later left threads buf offset h = rw (lt→ltb 0 offset h) refl

  myread-Cut :
      (left : ℕ → ℕ) (threads : List Task) (buf : ℕ → ℕ)
      → IsChecked bufsize left
      → (c : Cut decimal tgid threads buf
          (thread_loop decimal tgid threads buf 0).0
          (thread_loop decimal tgid threads buf 0).1)
      → let out = (myread decimal tgid left threads buf 0).0 in
        let shown = listing decimal tgid (c.before ++ (c.last ∷ [])) in
        ((c.n ≡ 0) × (out ≡ reads (take (bufsize - 1) shown ++ (0 ∷ []))))
        ⊎ ((1 ≤ c.n) × (out ≡ refused))
  myread-Cut left threads buf check c =
      let shown = listing decimal tgid (c.before ++ (c.last ∷ [])) in
      let text = take (bufsize - 1) shown ++ (0 ∷ []) in
      let same : length text ≡ bufsize = omega (
        arith,
        length-append (take (bufsize - 1) shown) (0 ∷ []),
        length-take (bufsize - 1) shown,
        c.cut_length,
      ) in
      elim (dec_le c.n 0) [
        | yes le ↦
            let e : c.n ≡ 0 = omega (arith, le) in
            let none_behind : load_bytes buf bufsize c.n ≡ [] = load_bytes_none buf bufsize c.n e in
            inl (
              e,
              myread-thread_loop left threads buf text
                  (check.copies (length text) (omega (arith, same)))
                  (omega (arith, c.passes, same, e))
                  (c.stored ∙ ap (λ t. take (bufsize - 1) shown ++ (0 ∷ t)) none_behind),
            )
        | no gt ↦ inr (
          omega arith,
          myread-refused left threads buf (omega (arith, c.passes))
              (check.refuses (thread_loop decimal tgid threads buf 0).1 (omega (arith, c.passes))),
        )
      ]

  -- A process reads the file, where copy_to_user refuses to copy more than buf's 1024 bytes and
  -- goes through otherwise. From offset 0, if the lines of its threads other than the first are
  -- shorter together than buf, it gets these lines, in the order of the threads. Otherwise a line
  -- does not fit behind those before it. If the lines up to this one are 1024 bytes together, it
  -- gets the first 1023 of them and a NUL; if they are longer, it gets nothing, the read fails with
  -- -EFAULT, and the offset stays 0. From another offset it gets nothing, and buf stays.
  pub myread_lem :
      (left : ℕ → ℕ) (threads : List Task) (buf : ℕ → ℕ)
      → IsChecked bufsize left
      → let out = (myread decimal tgid left threads buf 0).0 in
        let lines = listing decimal tgid in
        ((((length (lines threads) < bufsize) × (out ≡ reads (lines threads)))
            ⊎ ((before : List Task) × (last : Task) × (behind : List Task) × (n : ℕ) × (threads
                  ≡ before ++ (last ∷ behind))
                × (length (lines before) < bufsize)
                × (length (lines (before ++ (last ∷ []))) ≡ bufsize + n)
                × (((n ≡ 0)
                      × (out
                          ≡ reads (take (bufsize - 1) (lines (before ++ (last ∷ []))) ++ (0 ∷ []))))
                    ⊎ ((1 ≤ n) × (out ≡ refused)))))
          × ((offset : ℕ)
              → 0 < offset
              → myread decimal tgid left threads buf offset
                ≡ (record { result = ok 0; offset = offset; ubuf = [] }, buf)))
  unfolding Listed
  myread_lem left threads buf check =
      let start : Going decimal tgid [] buf buf = record {
        fits = omega arith;
        stored = load_bytes_none buf 0 0 refl;
        past = λ n. refl;
      } in
      (
        elim (thread_loop-Listed decimal tgid threads [] buf buf 0 refl start) [
          | inl w ↦ inl (
            w.fits,
            myread-thread_loop left threads buf (listing decimal tgid threads)
                (check.copies (length (listing decimal tgid threads)) (omega (arith, w.fits)))
                w.whole_length w.stored,
          )
          | inr c ↦ inr (
            c.before,
            c.last,
            c.behind,
            c.n,
            c.split,
            c.fits,
            c.cut_length,
            myread-Cut left threads buf check c,
          )
        ],
        λ offset h. later left threads buf offset h,
      )
