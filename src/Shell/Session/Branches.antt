-- ===== src/Shell/Session/Branches.antt =====
-- Lab2/src/shell.c: what the branches of a round keep of the shell.
use mathlib.Core.Path.{subst}
use fall_oslab.Base.{
  ℕ, ◌-◌, ◌≤◌, ◌<◌, ◌≡◌, refl, sym, ap, ◌∙◌, List, [], ◌∷◌, ◌++◌, none, some, ◌==◌, arith, length,
  get_or, Bool-cases, Option-cases, ◌⊎◌, inl, inr, ==→eq,
}
use fall_oslab.Shell.Command.{Text, CmdNode, Cmd, entered, split_line}
use fall_oslab.Shell.Command.Log.{Logs}
use fall_oslab.Shell.Builtin.{
  Search, help, builtin_func, faults, is_external, is_builtin, search_builtin_command,
  exec_built_in_command,
}
use fall_oslab.Shell.Pipeline.{Descriptors, Posix, IsPosix, make_pipes, fork_cmd_node}
use fall_oslab.Shell.Pipeline.Children.{Leaves, fork_cmd_node_lem}
use fall_oslab.Shell.Single.{Files, IsFiles, run_builtin}
use fall_oslab.Shell.Single.Restore.{run_builtin_restores}
use fall_oslab.Shell.Session.{
  Dirs, Round, Shell, Outcome, continues, leaves, exits, crashes, ends_round, exec_builtin,
  args_behind, run_func, run_single, run_pipeline, run_cmd,
}
use fall_oslab.Shell.Session.Exit.{IsExit, search-exit}
use fall_oslab.Shell.Session.Fail.{
  Breaks, Fails, run_builtin-none, echo-overruns, search-faults, split_line-some_node,
}
use fall_oslab.Shell.Session.Nodes.{Std, AllStd, split_line-Std}
use fall_oslab.Shell.Session.Records.{Same, log_of, recorded}

module _ {Dir : Type 0} (os : Posix) (fs : Files) (dirs : Dirs Dir) where
  -- What the round `r` makes of the shell.
  abbrev pub Keeps : Shell os fs dirs → List Text → Round → Outcome os fs dirs → Type 0
  Keeps s log r (continues s') = Same s.table s'.table × Logs s'.history (log ++ recorded r.input)
  Keeps s log r (leaves s') =
      Same s.table s'.table × Logs s'.history (log ++ recorded r.input) × IsExit r.input
  Keeps s log r exits = Fails os fs s.table r
  Keeps s log r crashes = Breaks r

  -- What a session of the rounds `rs` makes of the shell.
  abbrev pub SessionKeeps : Shell os fs dirs → List Text → List Round → Outcome os fs dirs → Type 0
  SessionKeeps s log rs (continues s') = Same s.table s'.table × Logs s'.history (log ++ log_of rs)
  SessionKeeps s log rs (leaves s') =
      Same s.table s'.table
      × (before : List Round) × (last : Round) × (behind : List Round) × (rs
          ≡ before ++ (last ∷ behind))
      × Logs s'.history (log ++ log_of (before ++ (last ∷ [])))
      × IsExit last.input
  SessionKeeps s log rs exits =
      (before : List Round) × (last : Round) × (behind : List Round) × (rs
        ≡ before ++ (last ∷ behind))
      × Fails os fs s.table last
  SessionKeeps s log rs crashes =
      (before : List Round) × (last : Round) × (behind : List Round) × (rs
        ≡ before ++ (last ∷ behind))
      × Breaks last

  pub Outcome-cases :
      (o : Outcome os fs dirs)
      → ((s : Shell os fs dirs) × (o ≡ continues s))
        ⊎ ((s : Shell os fs dirs) × (o ≡ leaves s))
        ⊎ (o ≡ exits)
        ⊎ (o ≡ crashes)
  Outcome-cases (continues s) = inl (s, refl)
  Outcome-cases (leaves s) = inr (inl (s, refl))
  Outcome-cases exits = inr (inr (inl refl))
  Outcome-cases crashes = inr (inr (inr refl))

  -- Both calls of dup in front of a built-in command succeed.
  pub record CanDup (t : Descriptors) : Type 0 where
    pub in_copy : ℕ
    pub with_in : Descriptors
    pub out_copy : ℕ
    pub with_out : Descriptors
    pub dup_in : fs.dup t 0 ≡ some (in_copy, with_in)
    pub dup_out : fs.dup with_in 1 ≡ some (out_copy, with_out)

  module _ (law : IsPosix os) (laws : IsFiles fs) where
    run_builtin-Same :
        (n : CmdNode) (t t' : Descriptors) (f g : ℕ)
        → Std n
        → t 0 ≡ some f
        → t 1 ≡ some g
        → CanDup t
        → run_builtin os fs n t ≡ some t'
        → Same t t'
    run_builtin-Same n t t' f g std h k c e =
        run_builtin_restores os fs law laws n t c.with_in c.with_out t' f g c.in_copy c.out_copy
          (std.0) (std.1) h k c.dup_in c.dup_out e

    module _ (r : Round) (s : Shell os fs dirs) (log : List Text) (buffer : Text) (f g : ℕ)
        (typed : r.input ≡ some buffer) (in_open : s.table 0 ≡ some f)
        (out_open : s.table 1 ≡ some g) (can_dup : CanDup s.table)
        (logs : Logs s.history (log ++ recorded r.input)) where
      exec_builtin-Keeps :
          (i : ℕ) (n : CmdNode) (rounds : ℕ) (t : Descriptors)
          → split_line (entered buffer) ≡ some (record { nodes = n ∷ []; pipe_num = rounds })
          → search_builtin_command n ≡ is_builtin i
          → Same s.table t
          → (exec_built_in_command i ≡ 0 → IsExit r.input)
          → Keeps s log r (exec_builtin os fs dirs i n t s)
      unfolding exec_builtin ends_round
      exec_builtin-Keeps i n rounds t single builtin same exit =
          let args = args_behind n.args in
          elim (Option-cases
            (run_func os fs dirs (get_or builtin_func i help) args s.history s.dir)) [
              | inl b ↦
                  let overruns = echo-overruns os fs dirs n i s.history s.dir builtin b in
                  rw (Keeps, exec_builtin, b)
                    (inr (buffer, typed, inr (n, rounds, single, inr overruns)))
              | inr (out, b) ↦ elim (Bool-cases (exec_built_in_command i == 0)) [
                | inl e ↦
                    rw (Keeps, exec_builtin, b, ends_round, e)
                      (same, logs, exit (==→eq (exec_built_in_command i) 0 e))
                | inr e ↦ rw (Keeps, exec_builtin, b, ends_round, e) (same, logs)
              ]
            ]

      run_search-Keeps :
          (n : CmdNode) (rounds : ℕ) (found_as : Search)
          → Std n
          → split_line (entered buffer) ≡ some (record { nodes = n ∷ []; pipe_num = rounds })
          → search_builtin_command n ≡ found_as
          → Keeps s log r (run_single os fs dirs r n s)
      unfolding run_single ends_round
      run_search-Keeps n rounds faults std single e =
          rw (Keeps, run_single, e)
            (inr (buffer, typed, inr (n, rounds, single, inl (search-faults n e))))
      run_search-Keeps n rounds is_external std single e =
          rw (Keeps, run_single, e) (λ q. refl, logs)
      run_search-Keeps n rounds (is_builtin i) std single e =
          elim (Option-cases (run_builtin os fs n s.table)) [
            | inl b ↦
                rw (Keeps, run_single, e, b)
                  (
                    buffer,
                    record { nodes = n ∷ []; pipe_num = rounds },
                    typed,
                    single,
                    inl (n, i, refl, e, run_builtin-none os fs n s.table b),
                  )
            | inr (t, b) ↦
                rw (run_single, e, b)
                  (exec_builtin-Keeps i n rounds t single e
                    (run_builtin-Same n s.table t f g std in_open out_open can_dup b)
                    (λ z.
                      let (rest, words) = search-exit n n.args i refl e z in
                      record {
                        buffer = buffer;
                        node = n;
                        rest = rest;
                        rounds = rounds;
                        typed = typed;
                        single = single;
                        words = words;
                      }))
          ]

      run_single-Keeps :
          (n : CmdNode) (rounds : ℕ)
          → Std n
          → split_line (entered buffer) ≡ some (record { nodes = n ∷ []; pipe_num = rounds })
          → Keeps s log r (run_single os fs dirs r n s)
      run_single-Keeps n rounds std single =
          run_search-Keeps n rounds (search_builtin_command n) std single refl

      pipeline-Same :
          (cmd : Cmd) (t : Descriptors)
          → 1 ≤ length cmd.nodes
          → (fork_cmd_node os r.fork s.table cmd).shell_table ≡ some t
          → Same s.table t
      pipeline-Same cmd t some_node e =
          let started = fork_cmd_node os r.fork s.table cmd in
          elim (fork_cmd_node_lem os r.fork s.table cmd law some_node in_open out_open) [
            | inl (no_pipe, no_child, left) ↦ absurd (cc (sym left ∙ e))
            | inr (pipes, u, made, runs) ↦
                (subst (Leaves r.fork s.table cmd.nodes started.children) e runs.leaves).1
          ]

      pipeline-Fails :
          (cmd : Cmd)
          → 2 ≤ length cmd.nodes
          → (fork_cmd_node os r.fork s.table cmd).shell_table ≡ none
          → (make_pipes os (length cmd.nodes - 1) s.table ≡ none)
            ⊎ ((j : ℕ) × (j < length cmd.nodes) × (r.fork j ≡ none))
      pipeline-Fails cmd several e =
          let started = fork_cmd_node os r.fork s.table cmd in
          elim (fork_cmd_node_lem os r.fork s.table cmd law (omega arith) in_open out_open) [
            | inl (no_pipe, no_child, left) ↦ inl no_pipe
            | inr (pipes, u, made, runs) ↦ inr (runs.failed e)
          ]

      run_pipeline-Keeps :
          (cmd : Cmd)
          → split_line (entered buffer) ≡ some cmd
          → 2 ≤ length cmd.nodes
          → Keeps s log r (run_pipeline os fs dirs r cmd s)
      unfolding run_pipeline ends_round
      run_pipeline-Keeps cmd split several =
          elim (Option-cases (fork_cmd_node os r.fork s.table cmd).shell_table) [
            | inl e ↦
                rw (Keeps, run_pipeline, e)
                  (buffer, cmd, typed, split, inr (several, pipeline-Fails cmd several e))
            | inr (t, e) ↦ rw (Keeps, run_pipeline, e) (pipeline-Same cmd t (omega arith) e, logs)
          ]

      pub run_nodes-Keeps :
          (cmd : Cmd) (nodes : List CmdNode)
          → cmd.nodes ≡ nodes
          → split_line (entered buffer) ≡ some cmd
          → Keeps s log r (run_cmd os fs dirs r cmd s)
      unfolding run_cmd
      run_nodes-Keeps cmd [] e split =
          absurd (omega (arith, split_line-some_node (entered buffer) cmd split, ap length e))
      run_nodes-Keeps cmd (n ∷ []) e split =
          let std : AllStd (n ∷ []) = subst AllStd e (split_line-Std (entered buffer) cmd split) in
          let single = split ∙ ap (λ ns. some (record { nodes = ns; pipe_num = cmd.pipe_num })) e in
          rw (run_cmd, e) (run_single-Keeps n cmd.pipe_num (std.0) single)
      run_nodes-Keeps cmd (n ∷ m ∷ ns) e split =
          rw (run_cmd, e) (run_pipeline-Keeps cmd split (omega (arith, ap length e)))
