-- ===== src/Shell/Session/Exit.antt =====
-- Lab2: the one line that ends the loop of shell().
use fall_oslab.Base.{ℕ, ◌≡◌, refl, sym, ap, ◌∙◌, List, [], ◌∷◌, Option, none, some, true, arith}
use fall_oslab.Shell.Command.{Text, CmdNode, entered, split_line}
use fall_oslab.Shell.Builtin.{
  faults, is_builtin, found, text_eq, builtin_str, search_from, search_builtin_command,
  exec_built_in_command,
}

abbrev pub exit_word : Text
exit_word = b'e' ∷ b'x' ∷ b'i' ∷ b't' ∷ []

-- A line with a single command, whose first word is exit.
pub record IsExit (input : Option Text) : Type 0 where
  pub buffer : Text
  pub node : CmdNode
  pub rest : List Text
  pub rounds : ℕ
  pub typed : input ≡ some buffer
  pub single : split_line (entered buffer) ≡ some (record { nodes = node ∷ []; pipe_num = rounds })
  pub words : node.args ≡ exit_word ∷ rest

pub text_eq→eq : (s t : Text) → text_eq s t ≡ true → s ≡ t
text_eq→eq [] [] e = refl
text_eq→eq [] (d ∷ ds) e = absurd (cc e)
text_eq→eq (c ∷ cs) [] e = absurd (cc e)
text_eq→eq (c ∷ cs) (d ∷ ds) e = ground (arith, text_eq→eq cs ds)

search_from-exit :
    (name : Text) (i : ℕ)
    → search_from name builtin_str 0 ≡ some i
    → exec_built_in_command i ≡ 0
    → name ≡ exit_word
unfolding search_from exec_built_in_command
search_from-exit name i e z = ground (arith, text_eq→eq name exit_word)

found-exit :
    (name : Text) (o : Option ℕ) (i : ℕ)
    → search_from name builtin_str 0 ≡ o
    → found o ≡ is_builtin i
    → exec_built_in_command i ≡ 0
    → name ≡ exit_word
found-exit name none i e f z = absurd (cc f)
found-exit name (some j) i e f z =
    let same : j ≡ i = cc f in search_from-exit name i (e ∙ ap some same) z

-- A built-in command that returns 0 has exit for its first word.
pub search-exit :
    (n : CmdNode) (args : List Text) (i : ℕ)
    → n.args ≡ args
    → search_builtin_command n ≡ is_builtin i
    → exec_built_in_command i ≡ 0
    → (rest : List Text) × (n.args ≡ exit_word ∷ rest)
unfolding search_builtin_command
search-exit n [] i a e z =
    let no_word : search_builtin_command n ≡ faults = rw (search_builtin_command, a) refl in
    absurd (cc (sym no_word ∙ e))
search-exit n (name ∷ rest) i a e z =
    let o = search_from name builtin_str 0 in
    let word : search_builtin_command n ≡ found o = rw (search_builtin_command, a) refl in
    (rest, a ∙ ap (λ w. w ∷ rest) (found-exit name o i refl (sym word ∙ e) z))
