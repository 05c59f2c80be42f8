-- ===== src/Proc/Tasks/Listing.antt =====
-- Lab3/3/3_1/My_Kernel.c: the text that a process reads about its threads.
use mathlib.Core.Path.{subst}
use mathlib.Core.List.{append_assoc, append-nil}
use fall_oslab.Base.{
  ℕ, ◌+◌, ◌-◌, ◌≤◌, ◌<◌, ◌≡◌, refl, sym, ap, ◌∙◌, List, [], ◌∷◌, ◌++◌, true, false, arith, length,
  take, leb, ◌==◌, ◌⊎◌, inl, inr, Bool-cases, load_bytes, length-append, load_bytes_agree,
  store_bytes-above, length-take,
}
use fall_oslab.Proc.Print.{snprintf, load_bytes-snprintf_behind, load_bytes-snprintf_behind_cut}
use fall_oslab.Proc.Tasks.{bufsize, Task, info_line, thread_loop}

module _ (decimal : ℕ → List ℕ) (tgid : ℕ) where
  -- The lines of the threads other than the first.
  abbrev pub listing : List Task → List ℕ
  listing [] = []
  listing (t ∷ ts) =
      let rest = listing ts in
      elim (t.pid == tgid) [ true ↦ rest | false ↦ info_line decimal tgid t ++ rest ]

  listing-append : (ts us : List Task) → listing (ts ++ us) ≡ listing ts ++ listing us
  listing-append [] us = refl
  listing-append (t ∷ ts) us = elim (Bool-cases (t.pid == tgid)) [
    | inl e ↦ rw (listing, e) (listing-append ts us)
    | inr e ↦
        rw (listing, e)
          (ap (◌++◌ (info_line decimal tgid t)) (listing-append ts us)
            ∙ sym (append_assoc (info_line decimal tgid t) (listing ts) (listing us)))
  ]

  -- All lines fit, and stand in buf.
  pub record Whole (threads : List Task) (buf : ℕ → ℕ) (len : ℕ) : Type 0 where
    pub fits : length (listing threads) < bufsize
    pub whole_length : len ≡ length (listing threads)
    pub stored : load_bytes buf 0 len ≡ listing threads

  -- The line of `last` is the first that does not fit: the bytes counted are n more than buf
  -- has, and the text ends with a NUL in front of them.
  pub record Cut (threads : List Task) (old buf : ℕ → ℕ) (len : ℕ) : Type 0 where
    pub before : List Task
    pub last : Task
    pub behind : List Task
    pub n : ℕ
    pub split : threads ≡ before ++ (last ∷ behind)
    pub fits : length (listing before) < bufsize
    pub cut_length : length (listing (before ++ (last ∷ []))) ≡ bufsize + n
    pub passes : len ≡ bufsize + n
    pub stored :
        load_bytes buf 0 len
        ≡ take (bufsize - 1) (listing (before ++ (last ∷ []))) ++ (0 ∷ load_bytes old bufsize n)

  listing-skip :
      (before : List Task) (t : Task)
      → (t.pid == tgid) ≡ true
      → listing (before ++ (t ∷ [])) ≡ listing before
  listing-skip before t e =
      listing-append before (t ∷ []) ∙ rw (listing, e) (append-nil (listing before))

  listing-line :
      (before : List Task) (t : Task)
      → (t.pid == tgid) ≡ false
      → listing (before ++ (t ∷ [])) ≡ listing before ++ info_line decimal tgid t
  listing-line before t e =
      listing-append before (t ∷ [])
      ∙ rw (listing, e) (ap (◌++◌ (listing before)) (append-nil (info_line decimal tgid t)))

  -- buf and its length are of a text of these threads.
  unfoldable pub Listed : (threads : List Task) → (old : ℕ → ℕ) → (ℕ → ℕ) × ℕ → Type 0
  Listed threads old r = Whole threads (r.0) (r.1) ⊎ Cut threads old (r.0) (r.1)

  -- The loop is behind the threads `done`: all their lines fit, and the bytes behind buf are as before.
  pub record Going (done : List Task) (old buf : ℕ → ℕ) : Type 0 where
    pub fits : length (listing done) < bufsize
    pub stored : load_bytes buf 0 (length (listing done)) ≡ listing done
    pub past : (n : ℕ) → load_bytes buf bufsize n ≡ load_bytes old bufsize n

  Going-skip :
      (done : List Task) (t : Task) (old buf : ℕ → ℕ)
      → (t.pid == tgid) ≡ true
      → Going done old buf
      → Going (done ++ (t ∷ [])) old buf
  Going-skip done t old buf e g =
      let same = listing-skip done t e in
      record { fits = rw same g.fits; stored = rw same g.stored; past = g.past }

  module _ (done : List Task) (t : Task) (old buf : ℕ → ℕ) (e : (t.pid == tgid) ≡ false)
      (g : Going done old buf) where
    printed : ℕ → ℕ
    printed =
        snprintf buf (length (listing done)) (bufsize - length (listing done))
          (info_line decimal tgid t)

    Going-line :
        length (listing done) + length (info_line decimal tgid t) < bufsize
        → Going (done ++ (t ∷ [])) old printed
    unfolding printed
    Going-line h =
        let line = info_line decimal tgid t in
        let size = bufsize - length (listing done) in
        let same = listing-line done t e in
        record {
          fits = rw same (omega (arith, length-append (listing done) line));
          stored =
              rw same
                (load_bytes-snprintf_behind buf (listing done) line size g.stored (omega arith));
          past = λ n.
              load_bytes_agree printed buf bufsize n (λ q a b.
                store_bytes-above (take (size - 1) line ++ (0 ∷ [])) buf (length (listing done)) q (
                  omega (
                    arith,
                    length-append (take (size - 1) line) (0 ∷ []),
                    length-take (size - 1) line,
                  )))
              ∙ g.past n;
        }

    Going-Cut :
        (ts : List Task)
        → bufsize ≤ length (listing done) + length (info_line decimal tgid t)
        → Cut
            (done ++ (t ∷ ts))
            old
            printed
            (length (listing done) + length (info_line decimal tgid t))
    unfolding printed
    Going-Cut ts h =
        let line = info_line decimal tgid t in
        let n = length (listing done) + length line - bufsize in
        let same = listing-line done t e in
        let long : length (listing done ++ line) ≡ bufsize + n =
          omega (arith, length-append (listing done) line) in
        let all : length (listing done) + length line ≡ bufsize + n = omega arith in
        record {
          before = done;
          last = t;
          behind = ts;
          n = n;
          split = refl;
          fits = g.fits;
          cut_length = rw same long;
          passes = all;
          stored = rw same (
              ap (load_bytes printed 0) all
              ∙ load_bytes-snprintf_behind_cut buf (listing done) line bufsize n g.stored g.fits
                  long
              ∙ ap (λ r. take (bufsize - 1) (listing done ++ line) ++ (0 ∷ r)) (g.past n));
        }

  pub thread_loop-Listed :
      (ts done : List Task) (old buf : ℕ → ℕ) (len : ℕ)
      → len ≡ length (listing done)
      → Going done old buf
      → Listed (done ++ ts) old (thread_loop decimal tgid ts buf len)
  unfolding thread_loop Listed printed
  thread_loop-Listed [] done old buf len same g = rw (append-nil done) (
      inl (record {
        fits = g.fits;
        whole_length = same;
        stored = ap (load_bytes buf 0) same ∙ g.stored;
      }))
  thread_loop-Listed (t ∷ ts) done old buf len same g =
      let line = info_line decimal tgid t in
      let shift = append_assoc done (t ∷ []) ts in
      elim (Bool-cases (t.pid == tgid)) [
        | inl e ↦
            rw (Listed, thread_loop, e)
              (subst (λ d. Listed d old (thread_loop decimal tgid ts buf len)) shift
                (thread_loop-Listed ts (done ++ (t ∷ [])) old buf len
                  (same ∙ ap length (sym (listing-skip done t e))) (Going-skip done t old buf e g)))
        | inr e ↦
            subst (λ l. Listed (done ++ (t ∷ ts)) old (thread_loop decimal tgid (t ∷ ts) buf l))
              (sym same)
              (elim (Bool-cases (leb bufsize (length (listing done) + length line))) [
                | inl f ↦
                    rw (Listed, thread_loop, e, f)
                      (inr (Going-Cut done t old buf e g ts (ground arith)))
                | inr f ↦
                    rw (Listed, thread_loop, e, f)
                      (subst
                        (λ d. Listed d old (
                          thread_loop decimal tgid ts (printed done t old buf e g)
                            (length (listing done) + length line)))
                        shift
                        (thread_loop-Listed ts (done ++ (t ∷ [])) old (printed done t old buf e g)
                          (length (listing done) + length line)
                          (sym
                            (ap length (listing-line done t e) ∙ length-append (listing done) line))
                          (Going-line done t old buf e g (ground arith))))
              ])
      ]
