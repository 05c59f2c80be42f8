-- ===== src/Shell/Single/Tests.antt =====
-- Lab2/src/shell.c: a run of a redirected built-in command.
use fall_oslab.Base.{◌≡◌, refl, [], ◌∷◌, none, some, update}
use fall_oslab.Shell.Command.{CmdNode}
use fall_oslab.Shell.Pipeline.{Descriptors}
use fall_oslab.Shell.Fixture.{posix, posix-IsPosix, files, files-IsFiles, terminal}
use fall_oslab.Shell.Single.{
  redirect_file, redirect_in_file, redirect_out_file, redirect_fd, redirection, dup_std, recover,
  close_fd, run_builtin,
}
use fall_oslab.Shell.Single.Restore.{run_builtin_restores}

-- record > x
abbrev command : CmdNode
command = record {
  args = (b'r' ∷ []) ∷ [];
  in_file = none;
  out_file = some (b'x' ∷ []);
  in_fd = 0;
  out_fd = 1;
}

abbrev copied : Descriptors
copied = update terminal 7 (some 100)

abbrev copied_both : Descriptors
copied_both = update copied 8 (some 101)

-- The table behind the command.
behind : (t : Descriptors) × (run_builtin posix files command terminal ≡ some t)
unfolding run_builtin dup_std redirection redirect_in_file redirect_out_file redirect_file
    redirect_fd recover close_fd
behind = (_, refl)

out_restored : behind.0 1 ≡ terminal 1
out_restored =
    run_builtin_restores posix files posix-IsPosix files-IsFiles command terminal copied copied_both
      behind.0 100 101 7 8 refl refl refl refl refl refl behind.1 1
