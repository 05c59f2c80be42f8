-- ===== src/Shell/Session/Tests.antt =====
-- Witnesses for the theorems on the loop of shell(), and runs of it.
use fall_oslab.Base.{
  ℕ, ◌+◌, ◌≡◌, arith, refl, List, [], ◌∷◌, ◌++◌, Option, none, some, Bool, true, false, update,
  length,
}
use fall_oslab.Shell.Command.{
  Text, record_line, read_line, until_newline, split_line, parse, tokens_from, flush, take_token,
  kind, redirect_in, redirect_out,
}
use fall_oslab.Mailbox.Lines.{fgets_line}
use fall_oslab.Shell.Builtin.{search_builtin_command, search_from, exec_built_in_command}
use fall_oslab.Shell.Single.{
  run_builtin, dup_std, redirection, redirect_in_file, redirect_out_file, redirect_file,
  redirect_fd, recover, close_fd,
}
use fall_oslab.Shell.Command.Jobs.{node_of, job_tokens, print}
use fall_oslab.Shell.Samples.{blank_history, list_job, count_job, list_job-IsJob, count_job-IsJob}
use fall_oslab.Shell.Fixture.{posix, posix-IsPosix, files, terminal}
use fall_oslab.Shell.Pipeline.{Child, Descriptors, Ends, make_pipes}
use fall_oslab.Shell.Pipeline.Children.{WiredFrom}
use fall_oslab.Shell.Session.{
  Dirs, Round, Shell, Outcome, continues, leaves, exits, crashes, shell, shell_round, run_line,
  run_cmd, run_single, run_pipeline, exec_builtin, ends_round, run_func,
}
use fall_oslab.Shell.Session.Records.{Same}
use fall_oslab.Shell.Session.Typed.{IsTyped, NullEnded, shell_round-print}

-- A tree of directories with a root only.
abbrev dirs : Dirs Text
dirs = record { chdir = λ d name. none; getcwd = λ d. some d }

abbrev at_start : Shell posix files dirs
at_start = record {
  history = blank_history;
  table = terminal;
  dir = b'/' ∷ [];
  printed = [];
  children = [];
}

abbrev pids : ℕ → Option ℕ
pids i = some (i + 10)

-- cd, then exit
abbrev session : List Round
session =
    record { input = some (b'c' ∷ b'd' ∷ b'\n' ∷ []); fork = pids }
    ∷ record { input = some (b'e' ∷ b'x' ∷ b'i' ∷ b't' ∷ b'\n' ∷ []); fork = pids }
    ∷ []

-- What the session leaves: whether the loop has ended, and the number of lines recorded.
abbrev seen : Outcome posix files dirs → Option (Bool × ℕ)
seen (continues s) = some (false, s.history.history_count)
seen (leaves s) = some (true, s.history.history_count)
seen exits = none
seen crashes = none

session_ends : seen (shell posix files dirs session at_start) ≡ some (true, 2)
unfolding shell shell_round read_line fgets_line until_newline record_line run_line run_cmd
    run_single run_pipeline exec_builtin ends_round run_func split_line parse tokens_from take_token
    flush kind redirect_in redirect_out search_builtin_command search_from exec_built_in_command
    run_builtin dup_std redirection redirect_in_file redirect_out_file redirect_file redirect_fd
    recover close_fd
session_ends = refl

abbrev typed : Text
typed = print (job_tokens list_job (count_job ∷ []))

typed-IsTyped : IsTyped typed
typed-IsTyped = record {
  one_line = (
    refl,
    (
      refl,
      (
        refl,
        (
          refl,
          (
            refl,
            (
              refl,
              (
                refl,
                (
                  refl,
                  (
                    refl,
                    (refl, (refl, (refl, (refl, (refl, (refl, (refl, (refl, (refl, tt))))))))),
                  ),
                ),
              ),
            ),
          ),
        ),
      ),
    ),
  );
  fits = omega arith;
  no_space = refl;
}

abbrev made : List Ends × Descriptors
made = (
  record { read_end = 3; write_end = 4 } ∷ [],
  update (update terminal 3 (some 103)) 4 (some 104),
)

pipe_made : make_pipes posix 1 terminal ≡ some made
unfolding make_pipes
pipe_made = refl

shell_round-print_example :
    (s' : Shell posix files dirs) × (cs : List Child) × (shell_round posix files dirs
        (record { input = some (typed ++ (b'\n' ∷ [])); fork = pids })
        at_start
      ≡ continues s')
    × (s'.history ≡ record_line blank_history typed)
    × Same terminal s'.table
    × (s'.children ≡ [] ++ cs)
    × (length cs ≡ 2)
    × WiredFrom terminal made.1 made.0 2 0 (node_of list_job ∷ node_of count_job ∷ []) cs
    × NullEnded cs
shell_round-print_example =
    shell_round-print posix files dirs posix-IsPosix at_start list_job count_job [] pids made.0
      made.1 100 101 list_job-IsJob (count_job-IsJob, tt) (omega arith, (omega arith, tt))
      typed-IsTyped refl refl (λ i e. absurd (cc e)) pipe_made
