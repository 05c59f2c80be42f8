-- ===== src/Proc/Hello.antt =====
-- Lab3/3/3_2/My_Kernel.c: the module's buffer, its write and its read.
use mathlib.Core.Path.{ap₂}
use fall_oslab.Base.{
  ℕ, suc, ◌+◌, ◌-◌, ◌≤◌, ◌<◌, ◌≡◌, refl, ap, ◌∙◌, List, [], ◌∷◌, ◌++◌, arith, length, ltb, ◌==◌,
  if◌then◌else◌, update, store_bytes, load_bytes, load_bytes-store_bytes, load_bytes-add,
  load_bytes-suc, load_bytes_agree, lt→ltb, take_all, length-append, true,
}
use fall_oslab.Kernel.{Result, ok, err, efault, IsCopy}
use fall_oslab.Mailbox.Text.{c_string}
use fall_oslab.Proc.Print.{snprintf, IsText, c_string-append, load_bytes-snprintf}

-- BUFSIZE
abbrev pub bufsize : ℕ
bufsize = 2048

-- Mywrite: what it returns, and buf. `copy bytes n` is copy_from_user.
unfoldable pub mywrite :
    (copy : List ℕ → ℕ → List ℕ × ℕ)
    → (buf : ℕ → ℕ) → (ubuf : List ℕ) → (buffer_len : ℕ) → Result ℕ × (ℕ → ℕ)
mywrite copy buf ubuf buffer_len =
    let len = if ltb buffer_len bufsize then buffer_len else bufsize - 1 in
    let (stored, left) = copy ubuf len in
    if left == 0
    then (ok buffer_len, update (store_bytes buf 0 stored) len 0)
    else (err efault, store_bytes buf 0 stored)

-- What Myread returns, `*offset` after it, and the bytes that reached the user's buffer.
pub record ReadOut : Type 0 where
  pub result : Result ℕ
  pub offset : ℕ
  pub ubuf : List ℕ

-- Myread. `left n` is what copy_to_user returns for n bytes, `stack` is the memory from temp_buf on as
-- the call finds it, and `info` is the text of the thread's PID, TID and time.
unfoldable pub myread :
    (left : ℕ → ℕ) → (buf stack : ℕ → ℕ) → (info : List ℕ) → (offset : ℕ) → ReadOut
myread left buf stack info offset =
    let text = c_string (load_bytes buf 0 bufsize) ++ info in
    let temp_buf = snprintf stack 0 bufsize text in
    let len = length text in
    if ltb 0 offset
    then record { result = ok 0; offset = offset; ubuf = [] }
    else (if left len == 0
        then record { result = ok len; offset = len; ubuf = load_bytes temp_buf 0 len }
        else record {
          result = err efault;
          offset = offset;
          ubuf = load_bytes temp_buf 0 (len - left len);
        })

-- A text and its NUL at the beginning of a buffer are that string.
pub c_string-update :
    (m : ℕ → ℕ) (text : List ℕ) (size : ℕ)
    → IsText text
    → length text < size
    → c_string (load_bytes (update (store_bytes m 0 text) (length text) 0) 0 size) ≡ text
c_string-update m text size is_text h =
    let m' = update (store_bytes m 0 text) (length text) 0 in
    let front : load_bytes m' 0 (length text) ≡ text =
      load_bytes_agree m' (store_bytes m 0 text) 0 (length text) (λ q a b. ground arith)
      ∙ load_bytes-store_bytes text m 0 in
    let nul : m' (0 + length text) ≡ 0 = ground arith in
    let k = size - length text - 1 in
    ap c_string (
      load_bytes-add m' 0 (length text) (suc k) size (omega arith)
      ∙ ap₂ ◌++◌ front (
          load_bytes-suc m' (0 + length text) k
          ∙ ap (λ c. c ∷ load_bytes m' (0 + length text + 1) k) nul))
    ∙ c_string-append text (load_bytes m' (0 + length text + 1) k) is_text

module _ (copy : List ℕ → ℕ → List ℕ × ℕ) (law : IsCopy copy) (buf : ℕ → ℕ) (text : List ℕ) where
  pub mywrite_lem :
      length text < bufsize
      → (copy text (length text)).1 ≡ 0
      → mywrite copy buf text (length text)
        ≡ (ok (length text), update (store_bytes buf 0 text) (length text) 0)
  unfolding mywrite
  mywrite_lem h goes =
      let stored = law.full text (length text) goes ∙ take_all (length text) text (omega arith) in
      rw (lt→ltb (length text) bufsize h, goes)
        (ap (λ s. (ok (length text), update (store_bytes buf 0 s) (length text) 0)) stored)

  -- A write of a text without a NUL and a read at offset 0, where both copies go through (of
  -- at most bufsize bytes, which copy_to_user does not refuse) and the text fits in the buffers with the thread's line: the write returns the text's length, the user
  -- reads the text and the line behind it, the result and the offset are their length, and a read
  -- from there on gives nothing.
  pub myread-mywrite :
      (left : ℕ → ℕ) (stack : ℕ → ℕ) (info : List ℕ)
      → IsText text
      → (copy text (length text)).1 ≡ 0
      → ((n : ℕ) → n ≤ bufsize → left n ≡ 0)
      → 1 ≤ length info
      → length (text ++ info) < bufsize
      → let (written, buf') = mywrite copy buf text (length text) in
        let n = length (text ++ info) in
        (written ≡ ok (length text))
        × (myread left buf' stack info 0
            ≡ record { result = ok n; offset = n; ubuf = text ++ info })
        × (myread left buf' stack info n ≡ record { result = ok 0; offset = n; ubuf = [] })
  unfolding myread
  myread-mywrite left stack info is_text goes done some_info fits =
      let short : length text < bufsize = omega (arith, length-append text info) in
      let found = c_string-update buf text bufsize is_text short in
      let again : ltb 0 (length (text ++ info)) ≡ true =
        lt→ltb 0 (length (text ++ info)) (omega (arith, length-append text info)) in
      rw (mywrite_lem short goes, found, done (length (text ++ info)) (omega (arith, fits)), again)
        (
          refl,
          ap
              (λ u. record {
                result = ok (length (text ++ info));
                offset = length (text ++ info);
                ubuf = u;
              })
              (load_bytes-snprintf stack 0 bufsize (text ++ info) fits),
          refl,
        )
