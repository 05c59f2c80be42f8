-- ===== src/Shell/Tests.antt =====
-- Witnesses for the theorems on Lab2, and runs of its functions.
use fall_oslab.Base.{
  Option, ℕ, List, map, ◌⊎◌, if◌then◌else◌, ltb, ◌+◌, ◌≡◌, refl, [], ◌∷◌, none, some, arith,
}
use fall_oslab.Mailbox.Lines.{fgets_line}
use fall_oslab.Shell.Command.{Cmd, Text, record_line, read_line, split_line, no_line, uninitialised}
use fall_oslab.Shell.Command.Log.{Logs, record_line-Logs, record_lines-numbered}
use fall_oslab.Shell.Command.Jobs.{node_of, job_tokens, print}
use fall_oslab.Shell.Command.Parse.{job_rounds, rounds, split_line-print}
use fall_oslab.Shell.Builtin.{record_lines}
use fall_oslab.Shell.Samples.{
  blank_history, blank_history-Logs, ls, list_job, count_job, list_job-IsJob, count_job-IsJob,
}
use fall_oslab.Shell.Fixture.{posix, posix-IsPosix}
use fall_oslab.Shell.Pipeline.{
  Descriptors, Ends, Child, make_pipes, close_pipes, child_table, start_children, fork_cmd_node,
}
use fall_oslab.Shell.Pipeline.Children.{Runs, fork_cmd_node_lem}

abbrev pwd_line : Text
pwd_line = b'p' ∷ b'w' ∷ b'd' ∷ []

one_line-Logs : Logs (record_line blank_history ls) (ls ∷ [])
one_line-Logs = record_line-Logs [] ls blank_history-Logs

two_lines-Logs : Logs (record_line (record_line blank_history ls) pwd_line) (ls ∷ pwd_line ∷ [])
two_lines-Logs = record_line-Logs (ls ∷ []) pwd_line one_line-Logs

record_lines-numbered_example : record_lines (record_line blank_history ls) ≡ (1, ls) ∷ []
record_lines-numbered_example = record_lines-numbered (ls ∷ []) one_line-Logs

split_line-print_example :
    split_line (print (job_tokens list_job (count_job ∷ [])))
    ≡ some (record {
      nodes = node_of list_job ∷ node_of count_job ∷ [];
      pipe_num = job_rounds list_job + rounds (count_job ∷ []);
    })
split_line-print_example =
    split_line-print list_job (count_job ∷ []) list_job-IsJob (count_job-IsJob, tt)

blank_line : read_line blank_history (some (b' ' ∷ ls)) ≡ (blank_history, no_line)
unfolding read_line fgets_line
blank_line = refl

end_of_input : read_line blank_history none ≡ (blank_history, uninitialised)
unfolding read_line
end_of_input = refl

-- The shell's table: descriptors 0, 1 and 2 are open.
abbrev terminal : Descriptors
terminal = λ d. if ltb d 3 then some d else none

abbrev pids : ℕ → Option ℕ
pids idx = some (idx + 10)

abbrev pipeline : Cmd
pipeline = record { nodes = node_of list_job ∷ node_of count_job ∷ []; pipe_num = 0 }

fork_cmd_node_lem_example :
    let s = fork_cmd_node posix pids terminal pipeline in
    ((make_pipes posix 1 terminal ≡ none) × (s.children ≡ []) × (s.shell_table ≡ none))
    ⊎ ((pipes : List Ends) × (t' : Descriptors) × (make_pipes posix 1 terminal ≡ some (pipes, t'))
        × Runs pids terminal t' pipes 2 0 pipeline.nodes s)
fork_cmd_node_lem_example =
    fork_cmd_node_lem posix pids terminal pipeline posix-IsPosix (omega arith) refl refl

abbrev Seen : Type 0
Seen = ℕ × Option ℕ × Option ℕ × Option ℕ × Option ℕ

-- A child's number, and what its descriptors 0, 1, 3 and 4 stand for.
abbrev seen : Child → Seen
seen c = (c.pid, c.table 0, c.table 1, c.table 3, c.table 4)

-- The first command writes to the pipe (103 and 104 are its ends), the second reads from it.
two_children :
    map seen (fork_cmd_node posix pids terminal pipeline).children
    ≡ (10, some 0, some 104, none, none) ∷ (11, some 103, some 1, none, none) ∷ []
unfolding fork_cmd_node start_children make_pipes child_table close_pipes
two_children = refl
