-- ===== src/Shell/Command/Parse.antt =====
-- split_line of Lab2/src/command.c against a printer of command lines.
use mathlib.Core.Path.{ap₂}
use mathlib.Core.List.{append-nil, append_assoc}
use fall_oslab.Base.{
  ℕ, suc, ◌+◌, ◌≤◌, ◌<◌, ◌≡◌, ◌≢◌, refl, ap, sym, ◌∙◌, List, [], ◌∷◌, ◌++◌, map, Option, none, some,
  ne→==, lt→ltb, arith, length, length-append,
}
use fall_oslab.Shell.Command.{
  Text, CmdNode, Parser, other, kind, first, empty_node, finish, flush, tokens_from, take_token,
  redirect_in, redirect_out, parse, split_line,
}
use fall_oslab.Shell.Command.Jobs.{
  Job, node_of, optional, bar_tokens, job_tokens, print, BlankFree, IsToken, IsArgument, Arguments,
  IsFile, IsJob, Jobs, Tokens,
}

tokens_from-cons :
    (word : Text) (c : ℕ) (cs : Text)
    → c ≢ b' '
    → tokens_from word (c ∷ cs) ≡ tokens_from (word ++ (c ∷ [])) cs
unfolding tokens_from
tokens_from-cons word c cs ne = rw (tokens_from, ne→== c b' ' ne) refl

-- One token of the line, with the part of it that has been read.
tokens_from-token :
    (word t rest : Text)
    → BlankFree t
    → tokens_from word (t ++ (b' ' ∷ rest)) ≡ flush (word ++ t) (tokens_from [] rest)
unfolding tokens_from flush
tokens_from-token word [] rest free =
    ap (λ w. flush w (tokens_from [] rest)) (sym (append-nil word))
tokens_from-token word (c ∷ cs) rest (ne, free) =
    tokens_from-cons word c (cs ++ (b' ' ∷ rest)) ne
    ∙ tokens_from-token (word ++ (c ∷ [])) cs rest free
    ∙ ap (λ w. flush w (tokens_from [] rest)) (append_assoc word (c ∷ []) cs)

flush-token : (t : Text) (ts : List Text) → 0 < length t → flush t ts ≡ t ∷ ts
unfolding flush
flush-token [] ts h = absurd (omega arith)
flush-token (c ∷ cs) ts h = refl

-- strtok returns the tokens that the line was printed from.
pub tokens_from-print : (ts : List Text) → Tokens ts → tokens_from [] (print ts) ≡ ts
unfolding tokens_from flush
tokens_from-print [] all = refl
tokens_from-print (t ∷ ts) (tok, all) =
    tokens_from-token [] t (print ts) tok.blank_free
    ∙ flush-token t (tokens_from [] (print ts)) tok.not_empty
    ∙ ap (λ us. t ∷ us) (tokens_from-print ts all)

-- The rounds of the loop of split_line.
abbrev pub optional_rounds : Option Text → ℕ
optional_rounds none = 0
optional_rounds (some file) = 1

abbrev pub job_rounds : Job → ℕ
job_rounds j = length j.words + optional_rounds j.input + optional_rounds j.output

abbrev pub rounds : List Job → ℕ
rounds [] = 0
rounds (j ∷ js) = suc (job_rounds j + rounds js)

abbrev parser : List CmdNode → CmdNode → ℕ → Parser
parser b n k = record { before = b; temp = n; pipe_num = k }

parse-other :
    (p q : Parser) (t : Text) (ts : List Text)
    → kind t ≡ other
    → take_token p t ≡ some q
    → parse p (t ∷ ts) ≡ parse q ts
unfolding parse
parse-other p q t [] k e = rw (parse, k, e) refl
parse-other p q t (u ∷ ts) k e = rw (parse, k, e) refl

kind-argument : (t : Text) → IsArgument t → kind t ≡ other
unfolding kind
kind-argument t a = rw (ne→== (first t) b'<' a.no_in, ne→== (first t) b'>' a.no_out) refl

take_token-argument :
    (b : List CmdNode) (n : CmdNode) (k : ℕ) (t : Text)
    → IsArgument t
    → length n.args < 10
    → take_token (parser b n k) t ≡ some (parser b (record n { args = n.args ++ (t ∷ []) }) (k + 1))
unfolding take_token
take_token-argument b n k t a room =
    rw (ne→== (first t) b'|' a.no_bar, lt→ltb (length n.args) 10 room) refl

parse-Arguments :
    (b : List CmdNode) (n : CmdNode) (k : ℕ) (ws rest : List Text)
    → Arguments ws
    → length n.args + length ws ≤ 10
    → parse (parser b n k) (ws ++ rest)
      ≡ parse (parser b (record n { args = n.args ++ ws }) (k + length ws)) rest
parse-Arguments b n k [] rest all room =
    ap₂ (λ us m. parse (parser b (record n { args = us }) m) rest) {u = k} {v = k + 0}
      (sym (append-nil n.args)) (omega arith)
parse-Arguments b n k (t ∷ ws) rest (a, all) room =
    parse-other (parser b n k) (parser b (record n { args = n.args ++ (t ∷ []) }) (k + 1)) t
      (ws ++ rest) (kind-argument t a) (take_token-argument b n k t a (omega arith))
    ∙ parse-Arguments b (record n { args = n.args ++ (t ∷ []) }) (k + 1) ws rest all
        (omega (arith, length-append n.args (t ∷ [])))
    ∙ ap₂ (λ us m. parse (parser b (record n { args = us }) m) rest) {u = k + 1 + length ws}
        {v = k + suc (length ws)} (append_assoc n.args (t ∷ []) ws) (omega arith)

parse-input :
    (b : List CmdNode) (n : CmdNode) (k : ℕ) (file : Option Text) (rest : List Text)
    → n.in_file ≡ none
    → parse (parser b n k) (optional b'<' file rest)
      ≡ parse (parser b (record n { in_file = file }) (k + optional_rounds file)) rest
unfolding parse kind redirect_in
parse-input b n k none rest e =
    ap₂ (λ f m. parse (parser b (record n { in_file = f }) m) rest) {u = k} {v = k + 0} e
      (omega arith)
parse-input b n k (some f) rest e = refl

parse-output :
    (b : List CmdNode) (n : CmdNode) (k : ℕ) (file : Option Text) (rest : List Text)
    → n.out_file ≡ none
    → parse (parser b n k) (optional b'>' file rest)
      ≡ parse (parser b (record n { out_file = file }) (k + optional_rounds file)) rest
unfolding parse kind redirect_out
parse-output b n k none rest e =
    ap₂ (λ f m. parse (parser b (record n { out_file = f }) m) rest) {u = k} {v = k + 0} e
      (omega arith)
parse-output b n k (some f) rest e = refl

parse-job :
    (b : List CmdNode) (k : ℕ) (j : Job) (rest : List Text)
    → IsJob j
    → parse (parser b empty_node k) (j.words ++ optional b'<' j.input (optional b'>' j.output rest))
      ≡ parse (parser b (node_of j) (k + job_rounds j)) rest
parse-job b k j rest w =
    parse-Arguments b empty_node k j.words (optional b'<' j.input (optional b'>' j.output rest))
      w.arguments (omega (arith, w.room))
    ∙ parse-input b (record (node_of j) { in_file = none; out_file = none }) (k + length j.words)
        j.input (optional b'>' j.output rest) refl
    ∙ parse-output b (record (node_of j) { out_file = none })
        (k + length j.words + optional_rounds j.input) j.output rest refl
    ∙ ap (λ m. parse (parser b (node_of j) m) rest)
        {x = k + length j.words + optional_rounds j.input + optional_rounds j.output}
        {y = k + job_rounds j} (omega arith)

bar-kind : kind (b'|' ∷ []) ≡ other
unfolding kind
bar-kind = refl

take_token-bar :
    (b : List CmdNode) (n : CmdNode) (k : ℕ)
    → take_token (parser b n k) (b'|' ∷ []) ≡ some (parser (b ++ (n ∷ [])) empty_node (k + 1))
unfolding take_token
take_token-bar b n k = refl

parse-bars :
    (b : List CmdNode) (n : CmdNode) (k : ℕ) (js : List Job)
    → Jobs js
    → (p : Parser) × (parse (parser b n k) (bar_tokens js) ≡ some p)
      × (finish p ≡ record { nodes = b ++ (n ∷ map node_of js); pipe_num = k + rounds js })
unfolding parse
parse-bars b n k [] all = (
  parser b n k,
  refl,
  ap (λ m. record { nodes = b ++ (n ∷ []); pipe_num = m }) {x = k} {y = k + 0} (omega arith),
)
parse-bars b n k (j ∷ js) (w, all) =
    let (p, e, f) = parse-bars (b ++ (n ∷ [])) (node_of j) (k + 1 + job_rounds j) js all in
    (
      p,
      parse-other (parser b n k) (parser (b ++ (n ∷ [])) empty_node (k + 1)) (b'|' ∷ [])
            (j.words ++ optional b'<' j.input (optional b'>' j.output (bar_tokens js))) bar-kind
            (take_token-bar b n k)
          ∙ parse-job (b ++ (n ∷ [])) (k + 1) j (bar_tokens js) w
          ∙ e,
      f
          ∙ ap₂ (λ ns m. record { nodes = ns; pipe_num = m }) {u = k + 1 + job_rounds j + rounds js}
              {v = k + suc (job_rounds j + rounds js)}
              (append_assoc b (n ∷ []) (node_of j ∷ map node_of js)) (omega arith),
    )

mark-IsToken : (c : ℕ) → c ≢ b' ' → IsToken (c ∷ [])
mark-IsToken c ne = record { not_empty = omega arith; blank_free = (ne, tt) }

optional-Tokens :
    (c : ℕ) (file : Option Text) (rest : List Text)
    → c ≢ b' '
    → IsFile file
    → Tokens rest
    → Tokens (optional c file rest)
optional-Tokens c none rest ne f all = all
optional-Tokens c (some t) rest ne f all = (mark-IsToken c ne, (f, all))

Arguments-Tokens : (ws rest : List Text) → Arguments ws → Tokens rest → Tokens (ws ++ rest)
Arguments-Tokens [] rest us all = all
Arguments-Tokens (t ∷ ws) rest (a, us) all = (a.is_token, Arguments-Tokens ws rest us all)

job-Tokens :
    (j : Job) (rest : List Text)
    → IsJob j
    → Tokens rest
    → Tokens (j.words ++ optional b'<' j.input (optional b'>' j.output rest))
job-Tokens j rest w all =
    Arguments-Tokens j.words (optional b'<' j.input (optional b'>' j.output rest)) w.arguments (
      optional-Tokens b'<' j.input (optional b'>' j.output rest) (omega arith) w.input_file
        (optional-Tokens b'>' j.output rest (omega arith) w.output_file all))

bar-Tokens : (js : List Job) → Jobs js → Tokens (bar_tokens js)
bar-Tokens [] all = tt
bar-Tokens (j ∷ js) (w, all) =
    (mark-IsToken b'|' (omega arith), job-Tokens j (bar_tokens js) w (bar-Tokens js all))

-- Round trip: the line printed for a pipeline of commands is parsed to those commands in their
-- order, and pipe_num is the number of rounds of the loop. Each command has at most ten arguments,
-- none of which begins with `|`, `<` or `>`, and at most one redirection each way; no argument and
-- no file name is empty or holds a blank.
pub split_line-print :
    (j : Job) (js : List Job)
    → IsJob j
    → Jobs js
    → split_line (print (job_tokens j js))
      ≡ some (record { nodes = map node_of (j ∷ js); pipe_num = job_rounds j + rounds js })
unfolding split_line
split_line-print j js w all =
    let (p, e, f) = parse-bars [] (node_of j) (0 + job_rounds j) js all in
    rw
      (
        split_line,
        tokens_from-print (job_tokens j js) (job-Tokens j (bar_tokens js) w (bar-Tokens js all)),
        parse-job [] 0 j (bar_tokens js) w,
        e,
      )
      (ap (λ c. some c)
        (f
          ∙ ap (λ m. record { nodes = map node_of (j ∷ js); pipe_num = m })
              {x = 0 + job_rounds j + rounds js} {y = job_rounds j + rounds js} (omega arith)))
