-- ===== src/Shell/Fixture.antt =====
-- System calls of Lab2/src/shell.c for the runs: pipe gives the descriptors 3 and 4, and fails if one is taken.
use mathlib.Core.Path.{subst}
use mathlib.Core.Option.{some-injective}
use fall_oslab.Base.{
  sym, ◌∙◌, ◌+◌, ℕ, ◌≡◌, ◌≢◌, refl, inl, inr, Option, none, some, update, Option-cases, eq→==,
  ne→==,
}
use fall_oslab.Shell.Pipeline.{Descriptors, Ends, Posix, IsPosix}
use fall_oslab.Shell.Single.{Files, IsFiles, Opens}

abbrev ends : Ends
ends = record { read_end = 3; write_end = 4 }

abbrev pipe_3_4 : Descriptors → Option (Ends × Descriptors)
pipe_3_4 t = elim (t 3) [
  | some _ ↦ none
  | none ↦ elim (t 4) [
    | some _ ↦ none
    | none ↦ some (ends, update (update t 3 (some 103)) 4 (some 104))
  ]
]

abbrev pub posix : Posix
posix = record {
  dup2 = λ t old new. update t new (t old);
  close = λ t d. update t d none;
  pipe = pipe_3_4;
}

-- What IsPosix asks of pipe.
abbrev Answer : Descriptors → Option (Ends × Descriptors) → Type 0
Answer t none = Unit
Answer t (some r) =
    ((t r.0.read_end ≡ none) × (t r.0.write_end ≡ none))
    × (((f : ℕ) × (r.1 r.0.read_end ≡ some f)) × ((f : ℕ) × (r.1 r.0.write_end ≡ some f)))
    × ((q : ℕ) → q ≢ r.0.read_end → q ≢ r.0.write_end → r.1 q ≡ t q)

pipe_3_4-Answer : (t : Descriptors) → Answer t (pipe_3_4 t)
pipe_3_4-Answer t = elim (Option-cases (t 3)) [
  | inr (f, e) ↦ rw (Answer, e) tt
  | inl e ↦ elim (Option-cases (t 4)) [
    | inr (f, g) ↦ rw (Answer, e, g) tt
    | inl g ↦
        subst (Answer t) (pipe_opens t e g)
          ((e, g), ((103, refl), (104, refl)), λ q a b. rw (ne→== q 4 b, ne→== q 3 a) refl)
  ]
]
  where
    pipe_opens :
        (t : Descriptors)
        → t 3 ≡ none
        → t 4 ≡ none
        → some (ends, update (update t 3 (some 103)) 4 (some 104)) ≡ pipe_3_4 t
    pipe_opens t e g = rw (pipe_3_4, e, g) refl

pub posix-IsPosix : IsPosix posix
posix-IsPosix = record {
  dup2_new = λ t old new file e. rw (eq→== new new refl) e;
  dup2_other = λ t old new q ne. rw (ne→== q new ne) refl;
  close_same = λ t d. rw (eq→== d d refl) refl;
  close_other = λ t d q ne. rw (ne→== q d ne) refl;
  pipe_free = λ t t' e h. (subst (Answer t) h (pipe_3_4-Answer t)).0;
  pipe_open = λ t t' e h. (subst (Answer t) h (pipe_3_4-Answer t)).1;
  pipe_other = λ t t' e q h. (subst (Answer t) h (pipe_3_4-Answer t)).2 q;
}

abbrev open_at : Descriptors → (fd file : ℕ) → Option (ℕ × Descriptors)
open_at t fd file = elim (t fd) [ none ↦ some (fd, update t fd (some file)) | some _ ↦ none ]

-- open gives the descriptors 5 and 6, and dup the one 7 further.
abbrev dup_at : Descriptors → (old : ℕ) → Option (ℕ × Descriptors)
dup_at t old = elim (t old) [ none ↦ none | some file ↦ open_at t (old + 7) file ]

abbrev pub files : Files
files = record {
  open_read = λ t name. open_at t 5 50;
  open_write = λ t name. open_at t 6 60;
  dup = dup_at;
}

open_at-Opens :
    (t t' : Descriptors) (fd file d : ℕ)
    → open_at t fd file ≡ some (d, t')
    → Opens t d t' × (t' d ≡ some file)
open_at-Opens t t' fd file d e = elim (Option-cases (t fd)) [
  | inr (f, g) ↦
      let fails : open_at t fd file ≡ none = rw (open_at, g) refl in absurd (cc (sym e ∙ fails))
  | inl g ↦
      let opens : open_at t fd file ≡ some (fd, update t fd (some file)) = rw (open_at, g) refl in
      let at_fd : update t fd (some file) fd ≡ some file = rw (eq→== fd fd refl) refl in
      subst (λ r. Opens t r.0 r.1 × (r.1 r.0 ≡ some file)) (some-injective _ _ (sym opens ∙ e))
        (
          record { free = g; opened = (file, at_fd); other = λ q ne. rw (ne→== q fd ne) refl },
          at_fd,
        )
]

dup_at-Opens :
    (t t' : Descriptors) (old fd file : ℕ)
    → t old ≡ some file
    → dup_at t old ≡ some (fd, t')
    → Opens t fd t' × (t' fd ≡ some file)
dup_at-Opens t t' old fd file h e =
    let same : dup_at t old ≡ open_at t (old + 7) file = rw (dup_at, h) refl in
    open_at-Opens t t' (old + 7) file fd (sym same ∙ e)

pub files-IsFiles : IsFiles files
files-IsFiles = record {
  open_read_lem = λ t t' name fd e. (open_at-Opens t t' 5 50 fd e).0;
  open_write_lem = λ t t' name fd e. (open_at-Opens t t' 6 60 fd e).0;
  dup_lem = dup_at-Opens;
}

-- The descriptors 0 and 1 are open.
abbrev pub terminal : Descriptors
terminal = update (update (λ q. none) 0 (some 100)) 1 (some 101)
