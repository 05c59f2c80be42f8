-- ===== src/Shell/Single.antt =====
-- Lab2/src/shell.c: redirection, spawn_proc, and the branch of shell() for a single command.
pub mod Restore
mod Tests
use fall_oslab.Base.{ℕ, ◌≡◌, ◌≢◌, Option, none, some, ◌==◌, if◌then◌else◌}
use fall_oslab.Shell.Command.{Text, CmdNode}
use fall_oslab.Shell.Pipeline.{Descriptors, Posix}

-- The system calls that open a descriptor: open with O_RDONLY, open with O_WRONLY, O_CREAT and
-- O_TRUNC, and dup. They return the descriptor and leave the table; `none` is a result of -1.
pub record Files : Type 0 where
  pub open_read : Descriptors → Text → Option (ℕ × Descriptors)
  pub open_write : Descriptors → Text → Option (ℕ × Descriptors)
  pub dup : Descriptors → (old : ℕ) → Option (ℕ × Descriptors)

-- A descriptor that was free is open, and no other has changed.
pub record Opens (t : Descriptors) (fd : ℕ) (t' : Descriptors) : Type 0 where
  pub free : t fd ≡ none
  pub opened : (file : ℕ) × (t' fd ≡ some file)
  pub other : (q : ℕ) → q ≢ fd → t' q ≡ t q

-- What their manual pages say: they open a descriptor that was free, and dup opens it on the same
-- file.
pub record IsFiles (fs : Files) : Type 0 where
  pub open_read_lem :
      (t t' : Descriptors) (name : Text) (fd : ℕ)
      → fs.open_read t name ≡ some (fd, t')
      → Opens t fd t'
  pub open_write_lem :
      (t t' : Descriptors) (name : Text) (fd : ℕ)
      → fs.open_write t name ≡ some (fd, t')
      → Opens t fd t'
  pub dup_lem :
      (t t' : Descriptors) (old fd file : ℕ)
      → t old ≡ some file
      → fs.dup t old ≡ some (fd, t')
      → Opens t fd t' × (t' fd ≡ some file)

module _ (os : Posix) (fs : Files) where
  -- dup2(fd, std) and close(fd), if open has not failed. `none`: the process exits.
  unfoldable pub redirect_file :
      (answer : Option (ℕ × Descriptors)) → (std : ℕ) → Option Descriptors
  redirect_file none std = none
  redirect_file (some (fd, t)) std = some (os.close (os.dup2 t fd std) fd)

  unfoldable pub redirect_in_file : Option Text → Descriptors → Option Descriptors
  redirect_in_file none t = some t
  redirect_in_file (some name) t = redirect_file (fs.open_read t name) 0

  unfoldable pub redirect_out_file : Option Text → Descriptors → Option Descriptors
  redirect_out_file none t = some t
  redirect_out_file (some name) t = redirect_file (fs.open_write t name) 1

  -- A descriptor of the node that is not the standard one; -1 is never stored in a node.
  unfoldable pub redirect_fd : (fd std : ℕ) → Descriptors → Descriptors
  redirect_fd fd std t = if fd == std then t else os.close (os.dup2 t fd std) fd

  -- `none`: a file could not be opened, and the process exits.
  unfoldable pub redirection : CmdNode → Descriptors → Option Descriptors
  redirection p t = elim (redirect_in_file p.in_file t) [
    | none ↦ none
    | some u ↦ elim (redirect_out_file p.out_file u) [
      | none ↦ none
      | some v ↦ some (redirect_fd p.out_fd 1 (redirect_fd p.in_fd 0 v))
    ]
  ]

  -- dup, and -1 as no descriptor.
  unfoldable pub dup_std : Descriptors → (std : ℕ) → Option ℕ × Descriptors
  dup_std t std = elim (fs.dup t std) [ none ↦ (none, t) | some r ↦ (some r.0, r.1) ]

  -- dup2(fd, std) if the file is not NULL; with -1 it fails.
  unfoldable pub recover :
      (file : Option Text) → (fd : Option ℕ) → (std : ℕ) → Descriptors → Descriptors
  recover none fd std t = t
  recover (some name) none std t = t
  recover (some name) (some fd) std t = os.dup2 t fd std

  unfoldable pub close_fd : Option ℕ → Descriptors → Descriptors
  close_fd none t = t
  close_fd (some fd) t = os.close t fd

  -- The shell's table behind a built-in command, which changes no descriptor; `none`: the shell exits.
  unfoldable pub run_builtin : CmdNode → Descriptors → Option Descriptors
  run_builtin p t =
      let (in_copy, t1) = dup_std t 0 in
      let (out_copy, t2) = dup_std t1 1 in
      elim (redirection p t2) [
        | none ↦ none
        | some t3 ↦ some (
            close_fd out_copy
              (close_fd in_copy (recover p.out_file out_copy 1 (recover p.in_file in_copy 0 t3))))
      ]

-- What spawn_proc starts: the table with which the child calls execvp, or none if fork fails or the
-- child exits in redirection. The shell's own table stays.
unfoldable pub spawn_proc :
    Posix → Files → (fork : Option ℕ) → CmdNode → Descriptors → Option Descriptors
spawn_proc os fs none p t = none
spawn_proc os fs (some pid) p t = redirection os fs p t
