-- ===== src/Shell/Pipeline.antt =====
-- Lab2/src/shell.c: fork_cmd_node, which starts the commands of a pipeline.
pub mod Wiring
pub mod Children
use fall_oslab.Base.{
  ℕ, zero, suc, ◌+◌, ◌-◌, ◌≡◌, ◌≢◌, List, [], ◌∷◌, Option, none, some, ltb, ◌==◌, if◌then◌else◌,
  length, get_or,
}
use fall_oslab.Shell.Command.{Text, CmdNode, Cmd}

-- The descriptor table of a process: which open file, if any, each descriptor stands for. Open files
-- are numbered.
abbrev pub Descriptors : Type 0
Descriptors = ℕ → Option ℕ

-- The two descriptors that pipe() stores.
pub record Ends : Type 0 where
  pub read_end : ℕ
  pub write_end : ℕ

-- The system calls that change the table. `none` is a result of -1.
pub record Posix : Type 0 where
  pub dup2 : Descriptors → (old new : ℕ) → Descriptors
  pub close : Descriptors → ℕ → Descriptors
  pub pipe : Descriptors → Option (Ends × Descriptors)

-- What their manual pages say. dup2 makes `new` stand for the file of an open `old`, close frees a
-- descriptor, and pipe opens two descriptors that were free.
pub record IsPosix (os : Posix) : Type 0 where
  pub dup2_new :
      (t : Descriptors) (old new file : ℕ) → t old ≡ some file → os.dup2 t old new new ≡ some file
  pub dup2_other : (t : Descriptors) (old new q : ℕ) → q ≢ new → os.dup2 t old new q ≡ t q
  pub close_same : (t : Descriptors) (d : ℕ) → os.close t d d ≡ none
  pub close_other : (t : Descriptors) (d q : ℕ) → q ≢ d → os.close t d q ≡ t q
  pub pipe_free :
      (t t' : Descriptors) (e : Ends)
      → os.pipe t ≡ some (e, t')
      → (t e.read_end ≡ none) × (t e.write_end ≡ none)
  pub pipe_open :
      (t t' : Descriptors) (e : Ends)
      → os.pipe t ≡ some (e, t')
      → ((f : ℕ) × (t' e.read_end ≡ some f)) × ((f : ℕ) × (t' e.write_end ≡ some f))
  pub pipe_other :
      (t t' : Descriptors) (e : Ends) (q : ℕ)
      → os.pipe t ≡ some (e, t')
      → q ≢ e.read_end
      → q ≢ e.write_end
      → t' q ≡ t q

-- The first loop: `rounds` pipes. `none`: pipe fails, and the shell exits.
unfoldable pub make_pipes : Posix → (rounds : ℕ) → Descriptors → Option (List Ends × Descriptors)
make_pipes os zero t = some ([], t)
make_pipes os (suc n) t = elim (os.pipe t) [
  | none ↦ none
  | some r ↦ elim (make_pipes os n r.1) [ none ↦ none | some s ↦ some (r.0 ∷ s.0, s.1) ]
]

-- The loops that close both ends of every pipe.
unfoldable pub close_pipes : Posix → List Ends → Descriptors → Descriptors
close_pipes os [] t = t
close_pipes os (e ∷ es) t = close_pipes os es (os.close (os.close t e.read_end) e.write_end)

abbrev no_ends : Ends
no_ends = record { read_end = 0; write_end = 0 }

abbrev pub pipe_at : List Ends → ℕ → Ends
pipe_at pipes i = get_or pipes i no_ends

-- What the child with that index does to its table, a copy of the shell's, before execvp.
unfoldable pub child_table : Posix → (count : ℕ) → List Ends → Descriptors → (idx : ℕ) → Descriptors
child_table os count pipes t idx =
    let t' = if ltb 0 idx then os.dup2 t (pipe_at pipes (idx - 1)).read_end 0 else t in
    let t'' = if ltb idx (count - 1) then os.dup2 t' (pipe_at pipes idx).write_end 1 else t' in
    close_pipes os pipes t''

-- A process that calls execvp. A NULL stands behind the words of args if they are fewer than
-- args_length.
pub record Child : Type 0 where
  pub pid : ℕ
  pub args : List Text
  pub table : Descriptors

-- The children that the shell has started, and whether it then waits for them, with its own table
-- after closing the pipes, or exits since fork failed.
pub record Started : Type 0 where
  pub children : List Child
  pub shell_table : Option Descriptors

abbrev also : Child → Started → Started
also c s = record s { children = c ∷ s.children }

-- The second loop, over the nodes from `idx` on. `fork idx` is what fork returns to the shell.
unfoldable pub start_children :
    Posix
    → (fork : ℕ → Option ℕ) → (count : ℕ) → List Ends
    → Descriptors
    → List CmdNode
    → (idx : ℕ) → Started
start_children os fork count pipes t [] idx = record {
  children = [];
  shell_table = some (close_pipes os pipes t);
}
start_children os fork count pipes t (n ∷ ns) idx =
    let rest = start_children os fork count pipes t ns (idx + 1) in
    elim (fork idx) [
      | none ↦ record { children = []; shell_table = none }
      | some pid ↦
          also (record { pid = pid; args = n.args; table = child_table os count pipes t idx }) rest
    ]

unfoldable pub fork_cmd_node : Posix → (fork : ℕ → Option ℕ) → Descriptors → Cmd → Started
fork_cmd_node os fork t cmd =
    let count = length cmd.nodes in
    elim (make_pipes os (count - 1) t) [
      | none ↦ record { children = []; shell_table = none }
      | some r ↦ start_children os fork count r.0 r.1 cmd.nodes 0
    ]
