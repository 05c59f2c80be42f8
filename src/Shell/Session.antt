-- ===== src/Shell/Session.antt =====
-- Lab2/src/shell.c: the loop of shell(), with what the built-in commands of builtin.c do.
pub mod Nodes
pub mod Exit
pub mod Fail
pub mod Records
pub mod Branches
pub mod Keep
pub mod Typed
mod Tests
use fall_oslab.Base.{
  ℕ, zero, suc, ◌+◌, List, [], ◌∷◌, ◌++◌, Option, none, some, ◌==◌, if◌then◌else◌, get_or, ltb,
  length, ◌-◌,
}
use fall_oslab.Shell.Command.{
  Text, CmdNode, Cmd, History, Line, no_line, line, uninitialised, read_line, split_line,
  args_length,
}
use fall_oslab.Shell.Builtin.{
  Builtin, help, cd, pwd, echo, exit_shell, record_history, builtin_str, builtin_func, faults,
  is_external, is_builtin, search_builtin_command, exec_built_in_command, echo_output, record_lines,
}
use fall_oslab.Shell.Pipeline.{Descriptors, Posix, Child, fork_cmd_node}
use fall_oslab.Shell.Single.{Files, run_builtin, spawn_proc}

-- chdir and getcwd on the process's directory; `none` is a failure.
pub record Dirs (Dir : Type 0) : Type 0 where
  pub chdir : Dir → Text → Option Dir
  pub getcwd : Dir → Option Text

-- What a built-in command prints: nothing, a text, numbered lines, or a message of perror. help also
-- prints a heading and two rules, always the same.
pub data Printed : Type 0 where
  nothing message : Printed
  text : Text → Printed
  lines : List (ℕ × Text) → Printed

-- The loop of help from index i on.
unfoldable pub help_lines : List Text → (i : ℕ) → List (ℕ × Text)
help_lines [] i = []
help_lines (s ∷ ss) i = (i, s) ∷ help_lines ss (i + 1)

-- What fork returns to the shell at its calls in this round, and the bytes that stdin holds for fgets,
-- if it is not at its end. What fgets leaves of a longer line is there for the next round.
pub record Round : Type 0 where
  pub input : Option Text
  pub fork : ℕ → Option ℕ

-- args + 1
abbrev pub args_behind : List Text → List Text
args_behind [] = []
args_behind (name ∷ args) = args

module _ {Dir : Type 0} (os : Posix) (fs : Files) (dirs : Dirs Dir) where
  -- A built-in function on args[1], args[2], …. `none`: echo finds no NULL in the ten places of args,
  -- and reads behind them.
  unfoldable pub run_func : Builtin → List Text → History → Dir → Option (Dir × Printed)
  run_func help args h d = some (d, lines (help_lines builtin_str 0))
  run_func cd [] h d = some (d, message)
  run_func cd (name ∷ args) h d = elim (dirs.chdir d name) [
    | none ↦ some (d, message)
    | some d' ↦ some (d', nothing)
  ]
  run_func pwd args h d = elim (dirs.getcwd d) [
    | none ↦ some (d, message)
    | some name ↦ some (d, text (name ++ (b'\n' ∷ [])))
  ]
  run_func echo args h d =
      if ltb (length args) (args_length - 1) then some (d, text (echo_output args)) else none
  run_func exit_shell args h d = some (d, nothing)
  run_func record_history args h d = some (d, lines (record_lines h))

  -- The shell in front of a round, with what its built-in commands have printed and the children that
  -- have come to execvp.
  pub record Shell : Type 0 where
    pub history : History
    pub table : Descriptors
    pub dir : Dir
    pub printed : List Printed
    pub children : List Child

  -- What a round comes to: the next one, the end of the loop, exit(EXIT_FAILURE), or a use of memory
  -- that has no value or lies outside of an array.
  pub data Outcome : Type 0 where
    continues : Shell → Outcome
    leaves : Shell → Outcome
    exits crashes : Outcome

  -- The test of status behind the branches.
  unfoldable pub ends_round : (status : ℕ) → Shell → Outcome
  ends_round status s = if status == 0 then leaves s else continues s

  -- A built-in command whose redirections have gone through.
  unfoldable pub exec_builtin : (index : ℕ) → CmdNode → Descriptors → Shell → Outcome
  exec_builtin i n t s =
      elim (run_func (get_or builtin_func i help) (args_behind n.args) s.history s.dir) [
        | none ↦ crashes
        | some r ↦
            ends_round (exec_built_in_command i)
              (record s { table = t; dir = r.0; printed = s.printed ++ (r.1 ∷ []) })
      ]

  abbrev spawned : (fork : Option ℕ) → CmdNode → Option Descriptors → List Child
  spawned (some pid) n (some t) = record { pid = pid; args = n.args; table = t } ∷ []
  spawned _ n _ = []

  -- The branch for a single command. spawn_proc returns 1 on every path.
  unfoldable pub run_single : Round → CmdNode → Shell → Outcome
  run_single r n s = elim (search_builtin_command n) [
    | faults ↦ crashes
    | is_external ↦
        let started = spawned (r.fork 0) n (spawn_proc os fs (r.fork 0) n s.table) in
        ends_round 1 (record s { children = s.children ++ started })
    | is_builtin i ↦ elim (run_builtin os fs n s.table) [
      | none ↦ exits
      | some t ↦ exec_builtin i n t s
    ]
  ]

  -- The branch for several commands: fork_cmd_node returns 1, or exits.
  unfoldable pub run_pipeline : Round → Cmd → Shell → Outcome
  run_pipeline r cmd s =
      let started = fork_cmd_node os r.fork s.table cmd in
      elim (started.shell_table) [
        | none ↦ exits
        | some t ↦ ends_round 1 (record s { table = t; children = s.children ++ started.children })
      ]

  unfoldable pub run_cmd : Round → Cmd → Shell → Outcome
  run_cmd r cmd s = elim cmd.nodes [
    | [] ↦ crashes
    | n ∷ ns ↦ elim ns [ [] ↦ run_single r n s | _ ∷ _ ↦ run_pipeline r cmd s ]
  ]

  unfoldable pub run_line : Round → Line → Shell → Outcome
  run_line r no_line s = continues s
  run_line r uninitialised s = crashes
  run_line r (line buffer) s = elim (split_line buffer) [
    | none ↦ crashes
    | some cmd ↦ run_cmd r cmd s
  ]

  -- One round of the loop.
  unfoldable pub shell_round : Round → Shell → Outcome
  shell_round r s =
      let (h, l) = read_line s.history r.input in run_line r l (record s { history = h })

  -- The loop, over the rounds for which there is an input.
  unfoldable pub shell : List Round → Shell → Outcome
  shell [] s = continues s
  shell (r ∷ rs) s = elim (shell_round r s) [
    | continues s' ↦ shell rs s'
    | leaves s' ↦ leaves s'
    | exits ↦ exits
    | crashes ↦ crashes
  ]
