-- ===== src/Shell/Session/Nodes.antt =====
-- Lab2/src/command.c: the nodes that split_line makes read the descriptor 0 and write to 1.
use mathlib.Core.Path.{subst}
use mathlib.Core.Option.{some-injective}
use fall_oslab.Base.{
  ◌≡◌, refl, sym, ◌∙◌, List, [], ◌∷◌, ◌++◌, Option, none, some, ◌==◌, ltb, length, Bool-cases,
  Option-cases, inl, inr,
}
use fall_oslab.Shell.Command.{
  Text, CmdNode, Cmd, Parser, first, args_length, take_token, redirect_in, redirect_out, in_from,
  out_to, other, kind, parse, start, finish, tokens_from, split_line,
}

abbrev pub Std : CmdNode → Type 0
Std n = (n.in_fd ≡ 0) × (n.out_fd ≡ 1)

abbrev pub AllStd : List CmdNode → Type 0
AllStd [] = Unit
AllStd (n ∷ ns) = Std n × AllStd ns

AllStd-append : (ns : List CmdNode) (n : CmdNode) → AllStd ns → Std n → AllStd (ns ++ (n ∷ []))
AllStd-append [] n a s = (s, tt)
AllStd-append (m ∷ ns) n a s = (a.0, AllStd-append ns n (a.1) s)

abbrev ParserStd : Parser → Type 0
ParserStd p = AllStd p.before × Std p.temp

abbrev OptionStd : Option Parser → Type 0
OptionStd none = Unit
OptionStd (some p) = ParserStd p

take_token-Std : (p : Parser) (t : Text) → ParserStd p → OptionStd (take_token p t)
unfolding take_token
take_token-Std p t s = elim (Bool-cases (first t == b'|')) [
  | inl e ↦ rw e (AllStd-append p.before p.temp (s.0) (s.1), (refl, refl))
  | inr e ↦ rw e (elim (Bool-cases (ltb (length p.temp.args) args_length)) [
    | inl f ↦ rw f s
    | inr f ↦ rw f tt
  ])
]

redirect_in-Std : (p : Parser) (f : Option Text) → ParserStd p → ParserStd (redirect_in p f)
unfolding redirect_in
redirect_in-Std p f s = s

redirect_out-Std : (p : Parser) (f : Option Text) → ParserStd p → ParserStd (redirect_out p f)
unfolding redirect_out
redirect_out-Std p f s = s

parse-Std : (p : Parser) (ts : List Text) → ParserStd p → OptionStd (parse p ts)
unfolding parse
parse-Std p [] s = s
parse-Std p (t ∷ []) s =
    elim (kind t)
      as (λ k. OptionStd (elim k as (λ x. Option Parser) [
        | in_from ↦ some (redirect_in p none)
        | out_to ↦ some (redirect_out p none)
        | other ↦ take_token p t
      ])) [
        | in_from ↦ redirect_in-Std p none s
        | out_to ↦ redirect_out-Std p none s
        | other ↦ take_token-Std p t s
      ]
parse-Std p (t ∷ u ∷ ts) s =
    elim (kind t)
      as (λ k. OptionStd (elim k as (λ x. Option Parser) [
        | in_from ↦ parse (redirect_in p (some u)) ts
        | out_to ↦ parse (redirect_out p (some u)) ts
        | other ↦ elim (take_token p t) as (λ x. Option Parser) [
          | none ↦ none
          | some q ↦ parse q (u ∷ ts)
        ]
      ])) [
        | in_from ↦ parse-Std (redirect_in p (some u)) ts (redirect_in-Std p (some u) s)
        | out_to ↦ parse-Std (redirect_out p (some u)) ts (redirect_out-Std p (some u) s)
        | other ↦ elim (Option-cases (take_token p t)) [
          | inl e ↦ rw e tt
          | inr (q, e) ↦ rw e (parse-Std q (u ∷ ts) (subst OptionStd e (take_token-Std p t s)))
        ]
      ]

-- Every node of a line that is parsed.
pub split_line-Std : (s : Text) (cmd : Cmd) → split_line s ≡ some cmd → AllStd cmd.nodes
unfolding split_line
split_line-Std s cmd e = elim (Option-cases (parse start (tokens_from [] s))) [
  | inl f ↦
      let none_left : split_line s ≡ none = rw (split_line, f) refl in
      absurd (cc (sym e ∙ none_left))
  | inr (p, f) ↦
      let parsed : split_line s ≡ some (finish p) = rw (split_line, f) refl in
      let std : ParserStd p =
        subst OptionStd f (parse-Std start (tokens_from [] s) (tt, (refl, refl))) in
      subst (λ c. AllStd c.nodes) (some-injective _ _ (sym parsed ∙ e))
        (AllStd-append p.before p.temp (std.0) (std.1))
]
