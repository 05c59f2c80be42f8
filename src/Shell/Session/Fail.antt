-- ===== src/Shell/Session/Fail.antt =====
-- Lab2: the lines at which the shell exits with a failure, or uses memory that it must not use.
use mathlib.Core.Path.{subst}
use mathlib.Core.Option.{some-injective}
use fall_oslab.Base.{
  ℕ, ◌-◌, ◌≤◌, ◌<◌, ◌≡◌, refl, ap, ◌∙◌, ◌⊎◌, inl, inr, List, [], ◌∷◌, Option, none, some, arith,
  length, ltb, get_or, Option-cases, Bool-cases, length-append, ◌≢◌, ◌==◌, ◌||◌,
}
use fall_oslab.Shell.Command.{
  Text, CmdNode, Cmd, uninitialised, History, entered, fgets_stored, read_line, split_line, parse,
  start, finish, tokens_from, args_length,
}
use fall_oslab.Shell.Builtin.{
  Builtin, help, cd, pwd, echo, exit_shell, record_history, builtin_str, builtin_func, found,
  faults, is_builtin, search_from, search_builtin_command,
}
use fall_oslab.Shell.Pipeline.{Descriptors, Posix, make_pipes}
use fall_oslab.Shell.Single.{
  Files, redirect_file, redirect_in_file, redirect_out_file, redirection, dup_std, run_builtin,
}
use fall_oslab.Shell.Session.{Dirs, Round, args_behind, run_func}
use fall_oslab.Shell.Session.Exit.{text_eq→eq}

abbrev pub echo_word : Text
echo_word = b'e' ∷ b'c' ∷ b'h' ∷ b'o' ∷ []

-- A line that makes the shell reach outside of args, or compare a name that is NULL: split_line meets
-- an eleventh word, the only command has no word, or it is echo with nine words or more behind it.
abbrev pub Overruns : (input : Text) → Type 0
Overruns input =
    (split_line (entered input) ≡ none)
    ⊎ ((node : CmdNode) × (rounds : ℕ) × (split_line (entered input)
          ≡ some (record { nodes = node ∷ []; pipe_num = rounds }))
        × ((node.args ≡ [])
            ⊎ ((words : List Text) × (node.args ≡ echo_word ∷ words)
                × (args_length - 1 ≤ length words))))

-- A round whose behaviour is undefined: at the end of the input, or for such a line.
abbrev pub Breaks : Round → Type 0
Breaks r = (r.input ≡ none) ⊎ ((input : Text) × (r.input ≡ some input) × Overruns input)

module _ (os : Posix) (fs : Files) where
  -- The file of `<` or of `>` cannot be opened.
  abbrev pub OpenFails : CmdNode → Descriptors → Type 0
  OpenFails p t =
      ((name : Text) × (p.in_file ≡ some name) × (fs.open_read t name ≡ none))
      ⊎ ((name : Text) × (u : Descriptors) × (p.out_file ≡ some name)
          × (redirect_in_file os fs p.in_file t ≡ some u)
          × (fs.open_write u name ≡ none))

  -- The shell's table with the copies of descriptors 0 and 1.
  abbrev pub with_copies : Descriptors → Descriptors
  with_copies t = (dup_std os fs (dup_std os fs t 0).1 1).1

  -- A round in which the shell itself exits with a failure: of a single built-in command, a file
  -- cannot be opened; of several commands, a call of pipe or of fork fails.
  abbrev pub Fails : Descriptors → Round → Type 0
  Fails t r =
      (input : Text) × (cmd : Cmd) × (r.input ≡ some input)
      × (split_line (entered input) ≡ some cmd)
      × (((node : CmdNode) × (i : ℕ) × (cmd.nodes ≡ node ∷ [])
            × (search_builtin_command node ≡ is_builtin i)
            × OpenFails node (with_copies t))
          ⊎ ((2 ≤ length cmd.nodes)
              × ((make_pipes os (length cmd.nodes - 1) t ≡ none)
                  ⊎ ((j : ℕ) × (j < length cmd.nodes) × (r.fork j ≡ none)))))

  redirect_file-none :
      (answer : Option (ℕ × Descriptors)) (std : ℕ)
      → redirect_file os fs answer std ≡ none
      → answer ≡ none
  unfolding redirect_file
  redirect_file-none none std e = refl
  redirect_file-none (some (fd, t)) std e = absurd (cc e)

  redirect_in_file-none :
      (file : Option Text) (t : Descriptors)
      → redirect_in_file os fs file t ≡ none
      → (name : Text) × (file ≡ some name) × (fs.open_read t name ≡ none)
  unfolding redirect_in_file
  redirect_in_file-none none t e = absurd (cc e)
  redirect_in_file-none (some name) t e = (name, refl, redirect_file-none (fs.open_read t name) 0 e)

  redirect_out_file-none :
      (file : Option Text) (t : Descriptors)
      → redirect_out_file os fs file t ≡ none
      → (name : Text) × (file ≡ some name) × (fs.open_write t name ≡ none)
  unfolding redirect_out_file
  redirect_out_file-none none t e = absurd (cc e)
  redirect_out_file-none (some name) t e =
      (name, refl, redirect_file-none (fs.open_write t name) 1 e)

  redirection-none : (p : CmdNode) (t : Descriptors) → redirection os fs p t ≡ none → OpenFails p t
  unfolding redirection
  redirection-none p t e = elim (Option-cases (redirect_in_file os fs p.in_file t)) [
    | inl a ↦ inl (redirect_in_file-none p.in_file t a)
    | inr (u, a) ↦ elim (Option-cases (redirect_out_file os fs p.out_file u)) [
      | inl b ↦
          let (name, file, failed) = redirect_out_file-none p.out_file u b in
          inr (name, u, file, a, failed)
      | inr (v, b) ↦ absurd (cc (rw (redirection, a, b) at e))
    ]
  ]

  pub run_builtin-none :
      (p : CmdNode) (t : Descriptors) → run_builtin os fs p t ≡ none → OpenFails p (with_copies t)
  unfolding run_builtin
  run_builtin-none p t e = elim (Option-cases (redirection os fs p (with_copies t))) [
    | inl a ↦ redirection-none p (with_copies t) a
    | inr (u, a) ↦ absurd (cc (rw (run_builtin, a) at e))
  ]

module _ {Dir : Type 0} (os : Posix) (fs : Files) (dirs : Dirs Dir) where
  -- Of the built-in functions only echo reads outside of its args.
  run_func-none :
      (b : Builtin) (args : List Text) (h : History) (d : Dir)
      → run_func os fs dirs b args h d ≡ none
      → (b ≡ echo) × (args_length - 1 ≤ length args)
  unfolding run_func
  run_func-none help args h d e = absurd (cc e)
  run_func-none cd [] h d e = absurd (cc e)
  run_func-none cd (name ∷ args) h d e = elim (Option-cases (dirs.chdir d name)) [
    | inl f ↦ absurd (cc (rw (run_func, f) at e))
    | inr (d', f) ↦ absurd (cc (rw (run_func, f) at e))
  ]
  run_func-none pwd args h d e = elim (Option-cases (dirs.getcwd d)) [
    | inl f ↦ absurd (cc (rw (run_func, f) at e))
    | inr (d', f) ↦ absurd (cc (rw (run_func, f) at e))
  ]
  run_func-none echo args h d e = elim (Bool-cases (ltb (length args) (args_length - 1))) [
    | inl f ↦ absurd (cc (rw (run_func, f) at e))
    | inr f ↦ (refl, ground arith)
  ]
  run_func-none exit_shell args h d e = absurd (cc e)
  run_func-none record_history args h d e = absurd (cc e)

  found-some : (o : Option ℕ) (i : ℕ) → found o ≡ is_builtin i → o ≡ some i
  found-some none i e = absurd (cc e)
  found-some (some j) i e = let same : j ≡ i = cc e in ap some same

  -- The name that is found, and the words behind it.
  search-found :
      (n : CmdNode) (args : List Text) (i : ℕ)
      → n.args ≡ args
      → search_builtin_command n ≡ is_builtin i
      → (name : Text) × (rest : List Text) × (n.args ≡ name ∷ rest)
        × (search_from name builtin_str 0 ≡ some i)
  unfolding search_builtin_command
  search-found n [] i a e = absurd (cc (rw (search_builtin_command, a) at e))
  search-found n (name ∷ rest) i a e = (
    name,
    rest,
    a,
    found-some (search_from name builtin_str 0) i (rw (search_builtin_command, a) at e),
  )

  search_from-echo :
      (name : Text) (i : ℕ)
      → search_from name builtin_str 0 ≡ some i
      → get_or builtin_func i help ≡ echo
      → name ≡ echo_word
  unfolding search_from
  search_from-echo name i e z = ground (arith, text_eq→eq name echo_word)

  -- A built-in command that reads outside of its args is echo with nine words or more.
  pub echo-overruns :
      (n : CmdNode) (i : ℕ) (h : History) (d : Dir)
      → search_builtin_command n ≡ is_builtin i
      → run_func os fs dirs (get_or builtin_func i help) (args_behind n.args) h d ≡ none
      → (words : List Text) × (n.args ≡ echo_word ∷ words) × (args_length - 1 ≤ length words)
  echo-overruns n i h d e none_left =
      let (name, rest, a, at) = search-found n n.args i refl e in
      let (is_echo, long) =
        run_func-none (get_or builtin_func i help) (args_behind n.args) h d none_left in
      (
        rest,
        a ∙ ap (λ w. w ∷ rest) (search_from-echo name i at is_echo),
        subst (λ ws. args_length - 1 ≤ length (args_behind ws)) a long,
      )

-- search_builtin_command faults on a command with no word.
pub search-faults : (n : CmdNode) → search_builtin_command n ≡ faults → n.args ≡ []
unfolding search_builtin_command
search-faults n e = no_word n.args refl
  where
    not_found : (o : Option ℕ) → found o ≢ faults
    not_found none e = cc e
    not_found (some i) e = cc e

    no_word : (args : List Text) → n.args ≡ args → n.args ≡ []
    no_word [] a = a
    no_word (name ∷ rest) a =
        absurd (not_found (search_from name builtin_str 0) (rw (search_builtin_command, a) at e))

-- A line that is parsed has a command.
pub split_line-some_node : (s : Text) (cmd : Cmd) → split_line s ≡ some cmd → 1 ≤ length cmd.nodes
unfolding split_line
split_line-some_node s cmd e = elim (Option-cases (parse start (tokens_from [] s))) [
  | inl f ↦ absurd (cc (rw (split_line, f) at e))
  | inr (p, f) ↦
      let same : finish p ≡ cmd = some-injective _ _ (rw (split_line, f) at e) in
      subst (λ (c : Cmd). 1 ≤ length c.nodes) same
        (omega (arith, length-append p.before (p.temp ∷ [])))
]

-- read_line has no value for the buffer at the end of the input only.
pub read_line-ended :
    (h : History) (input : Option Text) → (read_line h input).1 ≡ uninitialised → input ≡ none
unfolding read_line
read_line-ended h none e = refl
read_line-ended h (some input) e =
    let c = get_or (fgets_stored input) 0 0 in
    elim (Bool-cases (c == b'\n' || c == b' ' || c == b'\t')) [
      | inl f ↦ absurd (cc (rw (read_line, f) at e))
      | inr f ↦ absurd (cc (rw (read_line, f) at e))
    ]
