-- ===== src/Shell/Pipeline/Wiring.antt =====
-- Lab2/src/shell.c: which files the commands of a pipeline are connected to.
use mathlib.Core.Path.{subst}
use native.Mathlib.Decide.{ℕ_discrete}
use fall_oslab.Base.{
  ℕ, zero, suc, ◌+◌, ◌-◌, ◌≤◌, ◌<◌, ◌≡◌, ◌≢◌, refl, ap, sym, ◌∙◌, ◌⊎◌, inl, inr, List, [], ◌∷◌,
  Option, none, some, ltb, if◌then◌else◌, arith, Option-cases, Bool-cases, length, lt→ltb, le→ltb,
}
use fall_oslab.Shell.Pipeline.{
  Descriptors, Ends, Posix, IsPosix, make_pipes, close_pipes, pipe_at, child_table,
}

-- `q` is one of the pipes' descriptors.
abbrev pub IsEnd : List Ends → ℕ → Type 0
IsEnd [] q = ⊥
IsEnd (e ∷ es) q = (q ≡ e.read_end) ⊎ (q ≡ e.write_end) ⊎ IsEnd es q

IsEnd-cases : (es : List Ends) (q : ℕ) → IsEnd es q ⊎ ¬ IsEnd es q
IsEnd-cases [] q = inr (λ h. h)
IsEnd-cases (e ∷ es) q = elim (ℕ_discrete q e.read_end) [
  | yes h ↦ inl (inl h)
  | no h ↦ elim (ℕ_discrete q e.write_end) [
    | yes g ↦ inl (inr (inl g))
    | no g ↦ elim (IsEnd-cases es q) [
      | inl i ↦ inl (inr (inr i))
      | inr i ↦ inr (λ o. elim o [ inl a ↦ h a | inr b ↦ elim b [ inl c ↦ g c | inr d ↦ i d ] ])
    ]
  ]
]

-- What the pipes do to the shell's table: their descriptors were free and are open, and no other
-- descriptor changes.
pub record Opened (t t' : Descriptors) (es : List Ends) : Type 0 where
  pub free : (q : ℕ) → IsEnd es q → t q ≡ none
  pub opened : (q : ℕ) → IsEnd es q → (f : ℕ) × (t' q ≡ some f)
  pub other : (q : ℕ) → ¬ IsEnd es q → t' q ≡ t q

-- What a loop of `n` rounds that makes pipes returns.
abbrev pub Pipes : Descriptors → ℕ → Option (List Ends × Descriptors) → Type 0
Pipes t n none = Unit
Pipes t n (some r) = Opened t r.1 r.0 × (length r.0 ≡ n)

some-ne-none : {o : Option ℕ} {f : ℕ} → o ≡ some f → o ≢ none
some-ne-none h g = absurd (cc (sym h ∙ g))

module _ (os : Posix) (law : IsPosix os) where
  Opened-cons :
      (t t' t'' : Descriptors) (e : Ends) (es : List Ends)
      → os.pipe t ≡ some (e, t')
      → Opened t' t'' es
      → Opened t t'' (e ∷ es)
  Opened-cons t t' t'' e es h o =
      let (rf, wf) = law.pipe_free t t' e h in
      let (ro, wo) = law.pipe_open t t' e h in
      let keep : (q : ℕ) → (f : ℕ) → t' q ≡ some f → t'' q ≡ some f = λ q f s.
        elim (IsEnd-cases es q) [
          | inl i ↦ absurd (some-ne-none s (o.free q i))
          | inr i ↦ o.other q i ∙ s
        ] in
      record {
        free = λ q i. elim i [
          | inl a ↦ rw a rf
          | inr b ↦ elim b [
            | inl c ↦ rw c wf
            | inr d ↦ elim (ℕ_discrete q e.read_end) [
              | yes a ↦ rw a rf
              | no a ↦ elim (ℕ_discrete q e.write_end) [
                | yes c ↦ rw c wf
                | no c ↦ sym (law.pipe_other t t' e q h a c) ∙ o.free q d
              ]
            ]
          ]
        ];
        opened = λ q i. elim i [
          | inl a ↦ rw a (ro.0, keep e.read_end ro.0 ro.1)
          | inr b ↦ elim b [
            | inl c ↦ rw c (wo.0, keep e.write_end wo.0 wo.1)
            | inr d ↦ o.opened q d
          ]
        ];
        other = λ q i.
            o.other q (λ d. i (inr (inr d)))
            ∙ law.pipe_other t t' e q h (λ a. i (inl a)) (λ c. i (inr (inl c)));
      }

  pub make_pipes-Pipes : (n : ℕ) (t : Descriptors) → Pipes t n (make_pipes os n t)
  unfolding make_pipes
  make_pipes-Pipes zero t =
      (record { free = λ q i. absurd i; opened = λ q i. absurd i; other = λ q i. refl }, refl)
  make_pipes-Pipes (suc n) t = elim (Option-cases (os.pipe t)) [
    | inl e ↦ rw (Pipes, e) tt
    | inr (r, e) ↦ elim (Option-cases (make_pipes os n r.1)) [
      | inl g ↦ rw (Pipes, e, g) tt
      | inr (s, g) ↦
          let (o, l) = subst (Pipes r.1 n) g (make_pipes-Pipes n r.1) in
          rw (Pipes, e, g) (Opened-cons t r.1 s.1 r.0 s.0 e o, ap suc l)
    ]
  ]

  close_pipes_end :
      (es : List Ends) (t : Descriptors) (q : ℕ)
      → (t q ≡ none) ⊎ IsEnd es q
      → close_pipes os es t q ≡ none
  unfolding close_pipes
  close_pipes_end [] t q (inl h) = h
  close_pipes_end [] t q (inr h) = absurd h
  close_pipes_end (e ∷ es) t q h =
      let t' = os.close (os.close t e.read_end) e.write_end in
      close_pipes_end es t' q (elim (ℕ_discrete q e.write_end) [
        | yes w ↦ inl (rw w (law.close_same (os.close t e.read_end) e.write_end))
        | no w ↦ elim (ℕ_discrete q e.read_end) [
          | yes r ↦ inl (
              law.close_other (os.close t e.read_end) e.write_end q w
              ∙ rw r (law.close_same t e.read_end))
          | no r ↦ elim h [
            | inl n ↦ inl (
                law.close_other (os.close t e.read_end) e.write_end q w
                ∙ law.close_other t e.read_end q r
                ∙ n)
            | inr i ↦ elim i [
              | inl a ↦ absurd (r a)
              | inr b ↦ elim b [ inl c ↦ absurd (w c) | inr d ↦ inr d ]
            ]
          ]
        ]
      ])

  close_pipes_other :
      (es : List Ends) (t : Descriptors) (q : ℕ) → ¬ IsEnd es q → close_pipes os es t q ≡ t q
  unfolding close_pipes
  close_pipes_other [] t q h = refl
  close_pipes_other (e ∷ es) t q h =
      close_pipes_other es (os.close (os.close t e.read_end) e.write_end) q (λ d. h (inr (inr d)))
      ∙ law.close_other (os.close t e.read_end) e.write_end q (λ c. h (inr (inl c)))
      ∙ law.close_other t e.read_end q (λ a. h (inl a))

pipe_at-IsEnd :
    (es : List Ends) (i : ℕ)
    → i < length es
    → IsEnd es (pipe_at es i).read_end × IsEnd es (pipe_at es i).write_end
pipe_at-IsEnd [] i h = absurd (omega arith)
pipe_at-IsEnd (e ∷ es) zero h = (inl refl, inr (inl refl))
pipe_at-IsEnd (e ∷ es) (suc i) h =
    let (r, w) = pipe_at-IsEnd es i (omega arith) in (inr (inr r), inr (inr w))

-- The files of the child with index `idx` out of `count`: its input is that of the shell, or the pipe
-- before it; its output that of the shell, or the pipe behind it; and no other descriptor differs
-- from the shell's before the pipes were made.
pub record Wired (t t' : Descriptors) (pipes : List Ends) (count idx : ℕ) (child : Descriptors)
    : Type 0 where
  pub first_input : idx ≡ 0 → child 0 ≡ t 0
  pub input : 0 < idx → child 0 ≡ t' (pipe_at pipes (idx - 1)).read_end
  pub last_output : idx + 1 ≡ count → child 1 ≡ t 1
  pub output : idx + 1 < count → child 1 ≡ t' (pipe_at pipes idx).write_end
  pub rest : (q : ℕ) → 2 ≤ q → child q ≡ t q

module _ (os : Posix) (law : IsPosix os) where
  module _ {t t' : Descriptors} {es : List Ends} {a b : ℕ} (o : Opened t t' es)
      (in_open : t 0 ≡ some a) (out_open : t 1 ≡ some b) where
    not-IsEnd-0 : ¬ IsEnd es 0
    not-IsEnd-0 i = some-ne-none in_open (o.free 0 i)

    not-IsEnd-1 : ¬ IsEnd es 1
    not-IsEnd-1 i = some-ne-none out_open (o.free 1 i)

    -- The table of the child after the first dup2.
    abbrev after_input : ℕ → Descriptors
    after_input idx = if ltb 0 idx then os.dup2 t' (pipe_at es (idx - 1)).read_end 0 else t'

    after_input-0 :
        (idx : ℕ)
        → 0 < idx
        → idx - 1 < length es
        → after_input idx 0 ≡ t' (pipe_at es (idx - 1)).read_end
    after_input-0 idx h l =
        let (f, e) = o.opened (pipe_at es (idx - 1)).read_end (pipe_at-IsEnd es (idx - 1) l).0 in
        rw (lt→ltb 0 idx h) (law.dup2_new t' (pipe_at es (idx - 1)).read_end 0 f e ∙ sym e)

    after_input_other : (idx q : ℕ) → q ≢ 0 → after_input idx q ≡ t' q
    after_input_other zero q ne = refl
    after_input_other (suc i) q ne =
        rw (lt→ltb 0 (suc i) (omega arith))
          (law.dup2_other t' (pipe_at es (suc i - 1)).read_end 0 q ne)

    abbrev after_output : (count idx : ℕ) → Descriptors
    after_output count idx =
        if ltb idx (count - 1)
        then os.dup2 (after_input idx) (pipe_at es idx).write_end 1
        else after_input idx

    after_output_other : (count idx q : ℕ) → q ≢ 1 → after_output count idx q ≡ after_input idx q
    after_output_other count idx q ne = elim (Bool-cases (ltb idx (count - 1))) [
      | inl e ↦ rw e (law.dup2_other (after_input idx) (pipe_at es idx).write_end 1 q ne)
      | inr e ↦ rw e refl
    ]

    after_output-1 :
        (count idx : ℕ)
        → idx < count - 1
        → idx < length es
        → after_output count idx 1 ≡ t' (pipe_at es idx).write_end
    after_output-1 count idx h l =
        let w = (pipe_at es idx).write_end in
        let i = (pipe_at-IsEnd es idx l).1 in
        let (f, e) = o.opened w i in
        let same : after_input idx w ≡ t' w =
          after_input_other idx w (λ z. not-IsEnd-0 (subst (IsEnd es) z i)) in
        rw (lt→ltb idx (count - 1) h) (law.dup2_new (after_input idx) w 1 f (same ∙ e) ∙ sym e)

    pub child_table-Wired :
        (count idx : ℕ)
        → count ≡ suc (length es)
        → idx < count
        → Wired t t' es count idx (child_table os count es t' idx)
    unfolding child_table
    child_table-Wired count idx size h =
        let table = after_output count idx in
        let at_0 : close_pipes os es table 0 ≡ after_input idx 0 =
          close_pipes_other os law es table 0 not-IsEnd-0
          ∙ after_output_other count idx 0 (omega arith) in
        let at_1 : close_pipes os es table 1 ≡ table 1 =
          close_pipes_other os law es table 1 not-IsEnd-1 in
        record {
          first_input = λ z. at_0 ∙ ap (λ n. after_input n 0) z ∙ o.other 0 not-IsEnd-0;
          input = λ l. at_0 ∙ after_input-0 idx l (omega arith);
          last_output = λ z.
              at_1
              ∙ rw (le→ltb idx (count - 1) (omega arith)) refl
              ∙ after_input_other idx 1 (omega arith)
              ∙ o.other 1 not-IsEnd-1;
          output = λ l. at_1 ∙ after_output-1 count idx (omega arith) (omega arith);
          rest = λ q l. elim (IsEnd-cases es q) [
            | inl i ↦ close_pipes_end os law es table q (inr i) ∙ sym (o.free q i)
            | inr i ↦
                close_pipes_other os law es table q i
                ∙ after_output_other count idx q (omega arith)
                ∙ after_input_other idx q (omega arith)
                ∙ o.other q i
          ];
        }

    pub close_pipes-Opened : (q : ℕ) → close_pipes os es t' q ≡ t q
    close_pipes-Opened q = elim (IsEnd-cases es q) [
      | inl i ↦ close_pipes_end os law es t' q (inr i) ∙ sym (o.free q i)
      | inr i ↦ close_pipes_other os law es t' q i ∙ o.other q i
    ]
