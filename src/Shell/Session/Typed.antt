-- ===== src/Shell/Session/Typed.antt =====
-- Lab2: a pipeline from the line typed to the children that run its commands.
use mathlib.Core.Path.{subst}
use mathlib.Core.Option.{some-injective}
use fall_oslab.Base.{
  ℕ, zero, suc, ◌+◌, ◌-◌, ◌<◌, Bool-cases, ◌≡◌, ◌≢◌, refl, sym, ap, ◌∙◌, List, [], ◌∷◌, ◌++◌, map,
  Option, none, some, false, ◌==◌, ◌||◌, arith, length, get_or, Option-cases, inl, inr,
}
use fall_oslab.Shell.Command.{
  Text, Cmd, History, line, until_newline, record_line, read_line, buf_size, args_length,
}
use fall_oslab.Mailbox.Lines.{fgets_line}
use fall_oslab.Shell.Command.Jobs.{Job, IsJob, Jobs, node_of, job_tokens, print}
use fall_oslab.Shell.Command.Parse.{split_line-print, job_rounds, rounds}
use fall_oslab.Shell.Pipeline.{Descriptors, Ends, Posix, IsPosix, Child, fork_cmd_node, make_pipes}
use fall_oslab.Shell.Pipeline.Children.{WiredFrom, Leaves, fork_cmd_node_lem}
use fall_oslab.Shell.Single.{Files}
use fall_oslab.Shell.Session.{
  Dirs, Shell, continues, ends_round, run_pipeline, run_cmd, run_line, shell_round,
}
use fall_oslab.Shell.Session.Records.{Same}

-- No byte of the text ends a line or a string.
abbrev pub OneLine : Text → Type 0
OneLine [] = Unit
OneLine (c ∷ cs) = ((c == b'\n' || c == 0) ≡ false) × OneLine cs

-- A line that read_line takes whole: it has no newline of its own and no NUL, it does not begin with
-- white space, and fgets stores it with its newline in a buffer of BUF_SIZE bytes.
pub record IsTyped (s : Text) : Type 0 where
  pub one_line : OneLine s
  pub fits : length s + 1 < buf_size
  pub no_space :
      let c = get_or (s ++ (b'\n' ∷ [])) 0 0 in (c == b'\n' || c == b' ' || c == b'\t') ≡ false

until_newline-append : (s : Text) → OneLine s → until_newline (s ++ (b'\n' ∷ [])) ≡ s
unfolding until_newline
until_newline-append [] h = refl
until_newline-append (c ∷ cs) h = rw (h.0) (ap (λ t. c ∷ t) (until_newline-append cs (h.1)))

fgets_line-append :
    (n : ℕ) (s : Text)
    → OneLine s
    → length s < n
    → fgets_line n (s ++ (b'\n' ∷ [])) ≡ s ++ (b'\n' ∷ [])
unfolding fgets_line
fgets_line-append zero s h short = absurd (omega arith)
fgets_line-append (suc n) [] h short = refl
fgets_line-append (suc n) (c ∷ cs) h short = elim (Bool-cases (c == b'\n')) [
  | inl e ↦ absurd (cc (rw e at h.0))
  | inr e ↦ rw (fgets_line, e) (ap (λ t. c ∷ t) (fgets_line-append n cs h.1 (omega arith)))
]

read_line-typed :
    (h : History) (s : Text)
    → IsTyped s
    → read_line h (some (s ++ (b'\n' ∷ []))) ≡ (record_line h s, line s)
unfolding read_line
read_line-typed h s t =
    rw (fgets_line-append (buf_size - 1) s t.one_line (omega (arith, t.fits)), t.no_space)
      (ap (λ u. (record_line h u, line u)) (until_newline-append s t.one_line))

-- Every command has fewer words than args has places, so that a NULL stands behind them.
abbrev pub HasRoom : List Job → Type 0
HasRoom [] = Unit
HasRoom (j ∷ js) = (length j.words < args_length) × HasRoom js

-- execvp finds a NULL behind the words of each child.
abbrev pub NullEnded : List Child → Type 0
NullEnded [] = Unit
NullEnded (c ∷ cs) = (length c.args < args_length) × NullEnded cs

WiredFrom-NullEnded :
    (t t' : Descriptors) (pipes : List Ends) (count : ℕ) (js : List Job) (cs : List Child) (idx : ℕ)
    → HasRoom js
    → WiredFrom t t' pipes count idx (map node_of js) cs
    → NullEnded cs
WiredFrom-NullEnded t t' pipes count [] [] idx h w = tt
WiredFrom-NullEnded t t' pipes count (j ∷ js) [] idx h w = tt
WiredFrom-NullEnded t t' pipes count [] (c ∷ cs) idx h w = absurd w
WiredFrom-NullEnded t t' pipes count (j ∷ js) (c ∷ cs) idx h w =
    (rw (w.0) (h.0), WiredFrom-NullEnded t t' pipes count js cs (idx + 1) (h.1) (w.2))

length-map-node_of : (js : List Job) → length (map node_of js) ≡ length js
length-map-node_of [] = refl
length-map-node_of (j ∷ js) = ap suc (length-map-node_of js)

module _ {Dir : Type 0} (os : Posix) (fs : Files) (dirs : Dirs Dir) (law : IsPosix os) where
  round_runs :
      (s : Shell os fs dirs) (j k : Job) (ks : List Job) (fork : ℕ → Option ℕ) (left : Descriptors)
      → IsJob j
      → Jobs (k ∷ ks)
      → IsTyped (print (job_tokens j (k ∷ ks)))
      → let typed = print (job_tokens j (k ∷ ks)) in
        let cmd : Cmd = record {
          nodes = map node_of (j ∷ k ∷ ks);
          pipe_num = job_rounds j + rounds (k ∷ ks);
        } in
        let started = fork_cmd_node os fork s.table cmd in
        started.shell_table ≡ some left
        → shell_round os fs dirs (record { input = some (typed ++ (b'\n' ∷ [])); fork = fork }) s
          ≡ continues (record s {
            history = record_line s.history typed;
            table = left;
            children = s.children ++ started.children;
          })
  unfolding shell_round run_line run_cmd run_pipeline ends_round
  round_runs s j k ks fork left job jobs typed e =
      rw
        (
          shell_round,
          read_line-typed s.history (print (job_tokens j (k ∷ ks))) typed,
          run_line,
          split_line-print j (k ∷ ks) job jobs,
          run_cmd,
          run_pipeline,
          e,
        )
        refl

  -- A pipeline of two commands or more, typed as one line with a newline behind it, where pipe and
  -- fork do not fail, the shell's descriptors 0 and 1 are open, the line with its newline is shorter
  -- than BUF_SIZE, and each command has at most nine words, so that the NULL for execvp is in args. The shell goes on with its
  -- descriptors as before and with the line in its history, and it has started a child for every
  -- command of the line, in their order, each with the command's words, a NULL behind them, and wired for its place: the
  -- first reads the shell's input and each other one the pipe before it, the last writes to the
  -- shell's output and each other one to the pipe behind it.
  pub shell_round-print :
      (s : Shell os fs dirs) (j k : Job) (ks : List Job) (fork : ℕ → Option ℕ) (pipes : List Ends)
      (t : Descriptors) (f g : ℕ)
      → IsJob j
      → Jobs (k ∷ ks)
      → HasRoom (j ∷ k ∷ ks)
      → IsTyped (print (job_tokens j (k ∷ ks)))
      → s.table 0 ≡ some f
      → s.table 1 ≡ some g
      → ((i : ℕ) → fork i ≢ none)
      → make_pipes os (length (k ∷ ks)) s.table ≡ some (pipes, t)
      → let typed = print (job_tokens j (k ∷ ks)) in
        let nodes = map node_of (j ∷ k ∷ ks) in
        (s' : Shell os fs dirs) × (cs : List Child) × (shell_round os fs dirs
            (record { input = some (typed ++ (b'\n' ∷ [])); fork = fork })
            s
          ≡ continues s')
        × (s'.history ≡ record_line s.history typed)
        × Same s.table s'.table
        × (s'.children ≡ s.children ++ cs)
        × (length cs ≡ length nodes)
        × WiredFrom s.table t pipes (length nodes) 0 nodes cs
        × NullEnded cs
  shell_round-print s j k ks fork pipes t f g job jobs room typed in_open out_open forks made =
      let nodes = map node_of (j ∷ k ∷ ks) in
      let cmd : Cmd = record { nodes = nodes; pipe_num = job_rounds j + rounds (k ∷ ks) } in
      let started = fork_cmd_node os fork s.table cmd in
      let count : length nodes - 1 ≡ length (k ∷ ks) = omega (arith, length-map-node_of ks) in
      let made_all : make_pipes os (length nodes - 1) s.table ≡ some (pipes, t) =
        ap (λ n. make_pipes os n s.table) count ∙ made in
      elim (fork_cmd_node_lem os fork s.table cmd law (omega arith) in_open out_open) [
        | inl (no_pipe, _, _) ↦ absurd (cc (sym made_all ∙ no_pipe))
        | inr (es, u, made_some, runs) ↦
            let same_pipes : (es, u) ≡ (pipes, t) = some-injective _ _ (sym made_some ∙ made_all) in
            elim (Option-cases (started.shell_table)) [
              | inl e ↦
                  let (i, failed) =
                    subst (Leaves fork s.table nodes started.children) e runs.leaves in
                  absurd (forks i failed)
              | inr (left, e) ↦
                  let (all, same) =
                    subst (Leaves fork s.table nodes started.children) e runs.leaves in
                  let wired : WiredFrom s.table t pipes (length nodes) 0 nodes started.children =
                    subst (λ p. WiredFrom s.table p.1 p.0 (length nodes) 0 nodes started.children)
                      same_pipes runs.wired in
                  (
                    record s {
                      history = record_line s.history (print (job_tokens j (k ∷ ks)));
                      table = left;
                      children = s.children ++ started.children;
                    },
                    started.children,
                    round_runs s j k ks fork left job jobs typed e,
                    refl,
                    same,
                    refl,
                    all,
                    wired,
                    WiredFrom-NullEnded s.table t pipes (length nodes) (j ∷ k ∷ ks) started.children
                        0 room wired,
                  )
            ]
      ]
