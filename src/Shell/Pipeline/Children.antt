-- ===== src/Shell/Pipeline/Children.antt =====
-- Lab2/src/shell.c: the children that fork_cmd_node starts, and the shell's table after it.
use mathlib.Core.Path.{subst}
use fall_oslab.Base.{
  ℕ, suc, ◌+◌, ◌-◌, ◌≤◌, ◌<◌, ◌≡◌, refl, ap, ◌⊎◌, inl, inr, List, [], ◌∷◌, Option, none, some,
  arith, Option-cases, length,
}
use fall_oslab.Shell.Command.{CmdNode, Cmd}
use fall_oslab.Shell.Pipeline.{
  Descriptors, Ends, Posix, IsPosix, make_pipes, child_table, Child, Started, start_children,
  fork_cmd_node,
}
use fall_oslab.Shell.Pipeline.Wiring.{
  Opened, Pipes, make_pipes-Pipes, Wired, child_table-Wired, close_pipes-Opened,
}

-- The children of the nodes from `idx` on, as many as were started: each runs its node's command,
-- and is wired for its place.
abbrev pub WiredFrom :
    (t t' : Descriptors) → List Ends → (count idx : ℕ) → List CmdNode → List Child → Type 0
WiredFrom t t' pipes count idx ns [] = Unit
WiredFrom t t' pipes count idx [] (c ∷ cs) = ⊥
WiredFrom t t' pipes count idx (n ∷ ns) (c ∷ cs) =
    (c.args ≡ n.args)
    × Wired t t' pipes count idx c.table
    × WiredFrom t t' pipes count (idx + 1) ns cs

-- The shell's table in the end: as it was before, with a child for every node; or the shell exits,
-- since a fork failed.
abbrev pub Leaves :
    (fork : ℕ → Option ℕ) → Descriptors → List CmdNode → List Child → Option Descriptors → Type 0
Leaves fork t ns cs none = (i : ℕ) × (fork i ≡ none)
Leaves fork t ns cs (some end_table) = (length cs ≡ length ns) × ((q : ℕ) → end_table q ≡ t q)

pub record Runs (fork : ℕ → Option ℕ) (t t' : Descriptors) (pipes : List Ends) (count idx : ℕ)
    (ns : List CmdNode) (s : Started) : Type 0 where
  pub wired : WiredFrom t t' pipes count idx ns s.children
  pub leaves : Leaves fork t ns s.children s.shell_table
  pub failed : s.shell_table ≡ none → (i : ℕ) × (i < count) × (fork i ≡ none)

Leaves-cons :
    (fork : ℕ → Option ℕ) (t : Descriptors) (n : CmdNode) (ns : List CmdNode) (c : Child)
    (cs : List Child) (r : Option Descriptors)
    → Leaves fork t ns cs r
    → Leaves fork t (n ∷ ns) (c ∷ cs) r
Leaves-cons fork t n ns c cs none h = h
Leaves-cons fork t n ns c cs (some e) h = (ap suc h.0, h.1)

module _ (os : Posix) (law : IsPosix os) (fork : ℕ → Option ℕ) {t t' : Descriptors} {es : List Ends}
    {a b : ℕ} (o : Opened t t' es) (in_open : t 0 ≡ some a) (out_open : t 1 ≡ some b) where
  start_children-Runs :
      (count : ℕ) (ns : List CmdNode) (idx : ℕ)
      → count ≡ suc (length es)
      → idx + length ns ≡ count
      → Runs fork t t' es count idx ns (start_children os fork count es t' ns idx)
  unfolding start_children
  start_children-Runs count [] idx size place = record {
    wired = tt;
    leaves = (refl, close_pipes-Opened os law o in_open out_open);
    failed = λ f. absurd (cc f);
  }
  start_children-Runs count (n ∷ ns) idx size place = elim (Option-cases (fork idx)) [
    | inl e ↦
        rw (start_children, e)
          (record { wired = tt; leaves = (idx, e); failed = λ f. (idx, omega arith, e) })
    | inr (pid, e) ↦
        let r = start_children-Runs count ns (idx + 1) size (omega arith) in
        let rest = start_children os fork count es t' ns (idx + 1) in
        rw (start_children, e)
          (record {
            wired = (
              refl,
              child_table-Wired os law o in_open out_open count idx size (omega arith),
              r.wired,
            );
            leaves =
                Leaves-cons fork t n ns
                  (record { pid = pid; args = n.args; table = child_table os count es t' idx })
                  rest.children rest.shell_table r.leaves;
            failed = r.failed;
          })
  ]

-- A pipeline of one command or more, run by fork_cmd_node with the shell's input and output open,
-- where dup2, close and pipe do as documented. Either a pipe cannot be made, and the shell exits
-- with no child started. Or the children that are started run the commands in their order: the
-- first reads the shell's input and each other one the pipe before it, the last writes to the
-- shell's output and each other one to the pipe behind it, and all their other descriptors are the
-- shell's, so no end of a pipe stays open. If no fork fails there is a child for every command, and
-- the shell's own descriptors are as before; otherwise the fork for one of the commands fails, and
-- the shell exits.
pub fork_cmd_node_lem :
    (os : Posix) (fork : ℕ → Option ℕ) (t : Descriptors) (cmd : Cmd) {a b : ℕ}
    → IsPosix os
    → 1 ≤ length cmd.nodes
    → t 0 ≡ some a
    → t 1 ≡ some b
    → let count = length cmd.nodes in
      let s = fork_cmd_node os fork t cmd in
      ((make_pipes os (count - 1) t ≡ none) × (s.children ≡ []) × (s.shell_table ≡ none))
      ⊎ ((pipes : List Ends) × (t' : Descriptors) × (make_pipes os (count - 1) t ≡ some (pipes, t'))
          × Runs fork t t' pipes count 0 cmd.nodes s)
unfolding fork_cmd_node
fork_cmd_node_lem os fork t cmd law some_node in_open out_open =
    let count = length cmd.nodes in
    elim (Option-cases (make_pipes os (count - 1) t)) [
      | inl e ↦ rw (fork_cmd_node, e) (inl (refl, refl, refl))
      | inr (r, e) ↦
          let (o, l) = subst (Pipes t (count - 1)) e (make_pipes-Pipes os law (count - 1) t) in
          rw (fork_cmd_node, e)
            (inr (
              r.0,
              r.1,
              refl,
              start_children-Runs os law fork o in_open out_open count cmd.nodes 0 (omega arith)
                  (omega arith),
            ))
    ]
