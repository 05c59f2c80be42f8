-- ===== src/Shell/Single/Restore.antt =====
-- Lab2/src/shell.c: a command's redirections, and the shell's descriptors behind a built-in command.
use mathlib.Core.Path.{subst}
use mathlib.Core.Option.{some-injective}
use native.Mathlib.Decide.{ℕ_discrete}
use fall_oslab.Base.{
  ℕ, ◌≡◌, ◌≢◌, refl, ap, sym, ◌∙◌, Option, none, some, arith, Option-cases, inl, inr,
}
use fall_oslab.Shell.Command.{Text, CmdNode}
use fall_oslab.Shell.Pipeline.{Descriptors, Posix, IsPosix}
use fall_oslab.Shell.Single.{
  Files, IsFiles, Opens, redirect_file, redirect_in_file, redirect_out_file, redirect_fd,
  redirection, dup_std, recover, close_fd, run_builtin,
}

-- From t to t' only the descriptor `std` may have changed, and it has not if there is no file.
pub record Redirected (file : Option Text) (std : ℕ) (t t' : Descriptors) : Type 0 where
  pub kept : file ≡ none → t' std ≡ t std
  pub opened : (f : ℕ) × (t' std ≡ some f)
  pub other : (q : ℕ) → q ≢ std → t' q ≡ t q

pub open-apart : (t : Descriptors) (d e f : ℕ) → t d ≡ some f → t e ≡ none → d ≢ e
open-apart t d e f h g i = absurd (cc (sym h, ap t i, g))

module _ (os : Posix) (fs : Files) (law : IsPosix os) (laws : IsFiles fs) where
  redirect_file_lem :
      (t t' : Descriptors) (name : Text) (fd std f : ℕ)
      → t std ≡ some f
      → Opens t fd t'
      → Redirected (some name) std t (os.close (os.dup2 t' fd std) fd)
  redirect_file_lem t t' name fd std f h o =
      let apart : std ≢ fd = open-apart t std fd f h o.free in
      record {
        kept = λ e. ground arith;
        opened = (
          o.opened.0,
          law.close_other (os.dup2 t' fd std) fd std apart
              ∙ law.dup2_new t' fd std o.opened.0 o.opened.1,
        );
        other = λ q ne. elim (ℕ_discrete q fd) [
          | yes e ↦ rw e (law.close_same (os.dup2 t' fd std) fd ∙ sym o.free)
          | no e ↦
              law.close_other (os.dup2 t' fd std) fd q e
              ∙ law.dup2_other t' fd std q ne
              ∙ o.other q e
        ];
      }

  redirect_file-Redirected :
      (name : Text) (t t' : Descriptors) (std f : ℕ) (answer : Option (ℕ × Descriptors))
      → t std ≡ some f
      → ((fd : ℕ) (u : Descriptors) → answer ≡ some (fd, u) → Opens t fd u)
      → redirect_file os fs answer std ≡ some t'
      → Redirected (some name) std t t'
  unfolding redirect_file
  redirect_file-Redirected name t t' std f none h opens e = absurd (cc e)
  redirect_file-Redirected name t t' std f (some (fd, u)) h opens e =
      subst (Redirected (some name) std t) (some-injective _ _ e)
        (redirect_file_lem t u name fd std f h (opens fd u refl))

  same-Redirected :
      (t t' : Descriptors) (std f : ℕ)
      → t std ≡ some f
      → some t ≡ some t'
      → Redirected none std t t'
  same-Redirected t t' std f h e =
      subst (Redirected none std t) (some-injective _ _ e)
        (record { kept = λ n. refl; opened = (f, h); other = λ q ne. refl })

  redirect_in_file-Redirected :
      (file : Option Text) (t t' : Descriptors) (f : ℕ)
      → t 0 ≡ some f
      → redirect_in_file os fs file t ≡ some t'
      → Redirected file 0 t t'
  unfolding redirect_in_file
  redirect_in_file-Redirected none t t' f h e = same-Redirected t t' 0 f h e
  redirect_in_file-Redirected (some name) t t' f h e =
      redirect_file-Redirected name t t' 0 f (fs.open_read t name) h
        (λ fd u g. laws.open_read_lem t u name fd g) e

  redirect_out_file-Redirected :
      (file : Option Text) (t t' : Descriptors) (f : ℕ)
      → t 1 ≡ some f
      → redirect_out_file os fs file t ≡ some t'
      → Redirected file 1 t t'
  unfolding redirect_out_file
  redirect_out_file-Redirected none t t' f h e = same-Redirected t t' 1 f h e
  redirect_out_file-Redirected (some name) t t' f h e =
      redirect_file-Redirected name t t' 1 f (fs.open_write t name) h
        (λ fd u g. laws.open_write_lem t u name fd g) e

  -- What redirection does to the table of a node outside of a pipeline.
  redirection_lem :
      (p : CmdNode) (t t' : Descriptors) (f g : ℕ)
      → p.in_fd ≡ 0
      → p.out_fd ≡ 1
      → t 0 ≡ some f
      → t 1 ≡ some g
      → redirection os fs p t ≡ some t'
      → (u : Descriptors) × Redirected p.in_file 0 t u × Redirected p.out_file 1 u t'
  unfolding redirection redirect_fd
  redirection_lem p t t' f g in_std out_std h k e =
      elim (Option-cases (redirect_in_file os fs p.in_file t)) [
        | inl i ↦
            let fails : redirection os fs p t ≡ none = rw (redirection, i) refl in
            absurd (cc (sym e ∙ fails))
        | inr (u, i) ↦ elim (Option-cases (redirect_out_file os fs p.out_file u)) [
          | inl o ↦
              let fails : redirection os fs p t ≡ none = rw (redirection, i, o) refl in
              absurd (cc (sym e ∙ fails))
          | inr (v, o) ↦
              let input = redirect_in_file-Redirected p.in_file t u f h i in
              let output =
                redirect_out_file-Redirected p.out_file u v g (input.other 1 (omega arith) ∙ k) o in
              let done : redirection os fs p t ≡ some v =
                rw (redirection, i, o, in_std, out_std) refl in
              (
                u,
                input,
                subst (Redirected p.out_file 1 u) (some-injective _ _ (sym done ∙ e)) output,
              )
        ]
      ]

  -- The table behind dup2(fd, std), where the table t3 of the command differs at std only if there is
  -- a file.
  recover_std :
      (file : Option Text) (fd std f : ℕ) (t : Descriptors)
      → t fd ≡ some f
      → (file ≡ none → t std ≡ some f)
      → recover os fs file (some fd) std t std ≡ some f
  unfolding recover
  recover_std none fd std f t h g = g refl
  recover_std (some name) fd std f t h g = law.dup2_new t fd std f h

  recover_other :
      (file : Option Text) (fd std q : ℕ) (t : Descriptors)
      → q ≢ std
      → recover os fs file (some fd) std t q ≡ t q
  unfolding recover
  recover_other none fd std q t ne = refl
  recover_other (some name) fd std q t ne = law.dup2_other t fd std q ne

  -- The last four calls of the branch, on the table that the command leaves.
  recovered :
      (p : CmdNode) (t t1 t2 u t3 : Descriptors) (f g i o : ℕ)
      → t 0 ≡ some f
      → t 1 ≡ some g
      → Opens t i t1 × (t1 i ≡ some f)
      → Opens t1 o t2 × (t2 o ≡ some g)
      → Redirected p.in_file 0 t2 u
      → Redirected p.out_file 1 u t3
      → (q : ℕ)
      → os.close
          (os.close (recover os fs p.out_file (some o) 1 (recover os fs p.in_file (some i) 0 t3)) i)
          o
          q
        ≡ t q
  recovered p t t1 t2 u t3 f g i o h k in_copy out_copy input output q =
      let t4 = recover os fs p.in_file (some i) 0 t3 in
      let t5 = recover os fs p.out_file (some o) 1 t4 in
      let i-0 : 0 ≢ i = open-apart t 0 i f h in_copy.0.free in
      let i-1 : 1 ≢ i = open-apart t 1 i g k in_copy.0.free in
      let one : t1 1 ≡ some g = in_copy.0.other 1 i-1 ∙ k in
      let zero : t1 0 ≡ some f = in_copy.0.other 0 i-0 ∙ h in
      let o-0 : 0 ≢ o = open-apart t1 0 o f zero out_copy.0.free in
      let o-1 : 1 ≢ o = open-apart t1 1 o g one out_copy.0.free in
      let o-i : i ≢ o = open-apart t1 i o f in_copy.1 out_copy.0.free in
      let command : (r : ℕ) → r ≢ 0 → r ≢ 1 → t3 r ≡ t2 r =
        λ r a b. output.other r b ∙ input.other r a in
      elim (ℕ_discrete q o) [
        | yes a ↦ rw a (
            law.close_same (os.close t5 i) o
            ∙ sym (sym (in_copy.0.other o (λ b. o-i (sym b))) ∙ out_copy.0.free))
        | no a ↦ law.close_other (os.close t5 i) o q a ∙ elim (ℕ_discrete q i) [
          | yes b ↦ rw b (law.close_same t5 i ∙ sym in_copy.0.free)
          | no b ↦ law.close_other t5 i q b ∙ elim (ℕ_discrete q 1) [
            | yes c ↦ rw c (
                recover_std p.out_file o 1 g t4
                  (recover_other p.in_file i 0 o t3 (λ d. o-0 (sym d))
                    ∙ command o (λ d. o-0 (sym d)) (λ d. o-1 (sym d))
                    ∙ out_copy.1)
                  (λ none_given.
                    recover_other p.in_file i 0 1 t3 (omega arith)
                    ∙ output.kept none_given
                    ∙ input.other 1 (omega arith)
                    ∙ out_copy.0.other 1 o-1
                    ∙ one)
                ∙ sym k)
            | no c ↦ recover_other p.out_file o 1 q t4 c ∙ elim (ℕ_discrete q 0) [
              | yes d ↦ rw d (
                  recover_std p.in_file i 0 f t3
                    (command i (λ e. i-0 (sym e)) (λ e. i-1 (sym e))
                      ∙ out_copy.0.other i o-i
                      ∙ in_copy.1)
                    (λ none_given.
                      output.other 0 (omega arith)
                      ∙ input.kept none_given
                      ∙ out_copy.0.other 0 o-0
                      ∙ zero)
                  ∙ sym h)
              | no d ↦
                  recover_other p.in_file i 0 q t3 d
                  ∙ command q d c
                  ∙ out_copy.0.other q a
                  ∙ in_copy.0.other q b
            ]
          ]
        ]
      ]

  dup_std_lem :
      (t t' : Descriptors) (std fd : ℕ)
      → fs.dup t std ≡ some (fd, t')
      → dup_std os fs t std ≡ (some fd, t')
  unfolding dup_std
  dup_std_lem t t' std fd e = rw (dup_std, e) refl

  -- A single built-in command outside of a pipeline, in a shell whose descriptors 0 and 1 are open,
  -- where both dup succeed: unless a file cannot be opened, and the shell exits, every descriptor of
  -- the shell stands behind the command for the file that it stood for before, whatever files the
  -- command was redirected to.
  pub run_builtin_restores :
      (p : CmdNode) (t t1 t2 t' : Descriptors) (f g i o : ℕ)
      → p.in_fd ≡ 0
      → p.out_fd ≡ 1
      → t 0 ≡ some f
      → t 1 ≡ some g
      → fs.dup t 0 ≡ some (i, t1)
      → fs.dup t1 1 ≡ some (o, t2)
      → run_builtin os fs p t ≡ some t'
      → (q : ℕ) → t' q ≡ t q
  unfolding run_builtin close_fd
  run_builtin_restores p t t1 t2 t' f g i o in_std out_std h k in_dup out_dup e q =
      let in_copy = laws.dup_lem t t1 0 i f h in_dup in
      let one : t1 1 ≡ some g = in_copy.0.other 1 (open-apart t 1 i g k in_copy.0.free) ∙ k in
      let zero : t1 0 ≡ some f = in_copy.0.other 0 (open-apart t 0 i f h in_copy.0.free) ∙ h in
      let out_copy = laws.dup_lem t1 t2 1 o g one out_dup in
      let two : t2 0 ≡ some f =
        out_copy.0.other 0 (open-apart t1 0 o f zero out_copy.0.free) ∙ zero in
      let three : t2 1 ≡ some g =
        out_copy.0.other 1 (open-apart t1 1 o g one out_copy.0.free) ∙ one in
      let copied_in = dup_std_lem t t1 0 i in_dup in
      let copied_out = dup_std_lem t1 t2 1 o out_dup in
      elim (Option-cases (redirection os fs p t2)) [
        | inl r ↦
            let fails : run_builtin os fs p t ≡ none =
              rw (run_builtin, copied_in, copied_out, r) refl in
            absurd (cc (sym e ∙ fails))
        | inr (t3, r) ↦
            let (u, input, output) = redirection_lem p t2 t3 f g in_std out_std two three r in
            let done : run_builtin os fs p t
                ≡ some (
                    os.close
                      (os.close
                        (recover os fs p.out_file (some o) 1
                          (recover os fs p.in_file (some i) 0 t3))
                        i)
                      o) =
              rw (run_builtin, copied_in, copied_out, r, copied_in, copied_out) refl in
            ap (λ v. v q) (some-injective _ _ (sym e ∙ done))
            ∙ recovered p t t1 t2 u t3 f g i o h k in_copy out_copy input output q
      ]
