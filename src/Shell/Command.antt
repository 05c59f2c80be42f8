-- ===== src/Shell/Command.antt =====
-- Lab2/src/command.c and Lab2/include/command.h: reading a line, the history, and parsing.
pub mod Jobs
pub mod Parse
pub mod Log
use fall_oslab.Base.{
  ℕ, zero, suc, ◌+◌, ◌-◌, ◌%◌, List, [], ◌∷◌, ◌++◌, Option, none, some, Bool, true, false, ◌||◌,
  ◌==◌, ltb, if◌then◌else◌, length, get_or, update,
}
use fall_oslab.Mailbox.Lines.{fgets_line}

abbrev pub max_record_num : ℕ
max_record_num = 16

-- args_length of split_line
abbrev pub args_length : ℕ
args_length = 10

-- The bytes of a C string, without its terminator.
abbrev pub Text : Type 0
Text = List ℕ

-- struct cmd_node. `length` is the length of `args`, `next` the rest of the list of nodes.
pub record CmdNode : Type 0 where
  pub args : List Text
  pub in_file : Option Text
  pub out_file : Option Text
  pub in_fd : ℕ
  pub out_fd : ℕ

-- struct cmd: the nodes from `head` on.
pub record Cmd : Type 0 where
  pub nodes : List CmdNode
  pub pipe_num : ℕ

-- history and history_count
pub record History : Type 0 where
  pub history : ℕ → Text
  pub history_count : ℕ

-- What read_line returns: NULL, a line, or, at the end of the input, the buffer as malloc left it.
pub data Line : Type 0 where
  no_line : Line
  line : Text → Line
  uninitialised : Line

-- The text up to strcspn(buffer, "\n"), which stops at a NUL as well.
unfoldable pub until_newline : Text → Text
until_newline [] = []
until_newline (c ∷ cs) = if c == b'\n' || c == 0 then [] else c ∷ until_newline cs

-- strncpy to the slot of the ring, and ++history_count.
unfoldable pub record_line : History → Text → History
record_line h s = record {
  history = update h.history (h.history_count % max_record_num) s;
  history_count = h.history_count + 1;
}

-- BUF_SIZE
abbrev pub buf_size : ℕ
buf_size = 1024

-- What fgets(buffer, BUF_SIZE, stdin) stores of the bytes on stdin.
abbrev pub fgets_stored : (input : Text) → Text
fgets_stored input = fgets_line (buf_size - 1) input

-- The line that read_line makes of them.
abbrev pub entered : (input : Text) → Text
entered input = until_newline (fgets_stored input)

-- `input` is what stdin holds for fgets, one byte at least, or `none` at the end of the input.
unfoldable pub read_line : History → (input : Option Text) → History × Line
read_line h none = (h, uninitialised)
read_line h (some input) =
    let buffer = fgets_stored input in
    let c = get_or buffer 0 0 in
    let s = until_newline buffer in
    if c == b'\n' || c == b' ' || c == b'\t' then (h, no_line) else (record_line h s, line s)

-- The tokens that strtok(line, " ") and the calls after it return; `word` is the token begun.
unfoldable pub flush : Text → List Text → List Text
flush [] ts = ts
flush (c ∷ word) ts = (c ∷ word) ∷ ts

unfoldable pub tokens_from : (word : Text) → Text → List Text
tokens_from word [] = flush word []
tokens_from word (c ∷ cs) = elim (c == b' ') [
  | true ↦ flush word (tokens_from [] cs)
  | false ↦ tokens_from (word ++ (c ∷ [])) cs
]

abbrev pub empty_node : CmdNode
empty_node = record { args = []; in_file = none; out_file = none; in_fd = 0; out_fd = 1 }

-- The variables of the loop of split_line: the nodes before `temp`, `temp`, and pipe_num.
pub record Parser : Type 0 where
  pub before : List CmdNode
  pub temp : CmdNode
  pub pipe_num : ℕ

abbrev pub first : Text → ℕ
first token = get_or token 0 0

-- One round for a token that is no redirection. `none`: temp->args[temp->length] lies outside of the
-- array of args_length pointers.
unfoldable pub take_token : Parser → Text → Option Parser
take_token p token =
    if first token == b'|'
    then some (record {
      before = p.before ++ (p.temp ∷ []);
      temp = empty_node;
      pipe_num = p.pipe_num + 1;
    })
    else (if ltb (length p.temp.args) args_length
        then some (record p {
          temp = record (p.temp) { args = p.temp.args ++ (token ∷ []) };
          pipe_num = p.pipe_num + 1;
        })
        else none)

-- One round for `<` or `>`, with the token behind it, or NULL.
unfoldable pub redirect_in : Parser → Option Text → Parser
redirect_in p file = record p {
  temp = record (p.temp) { in_file = file };
  pipe_num = p.pipe_num + 1;
}

unfoldable pub redirect_out : Parser → Option Text → Parser
redirect_out p file = record p {
  temp = record (p.temp) { out_file = file };
  pipe_num = p.pipe_num + 1;
}

pub data Kind : Type 0 where
  in_from out_to other : Kind

unfoldable pub kind : Text → Kind
kind token =
    if first token == b'<' then in_from else (if first token == b'>' then out_to else other)

-- The loop, over the tokens that strtok has still to return.
unfoldable pub parse : Parser → List Text → Option Parser
parse p [] = some p
parse p (t ∷ []) = elim (kind t) [
  | in_from ↦ some (redirect_in p none)
  | out_to ↦ some (redirect_out p none)
  | other ↦ take_token p t
]
parse p (t ∷ u ∷ ts) = elim (kind t) [
  | in_from ↦ parse (redirect_in p (some u)) ts
  | out_to ↦ parse (redirect_out p (some u)) ts
  | other ↦ elim (take_token p t) [ none ↦ none | some q ↦ parse q (u ∷ ts) ]
]

abbrev pub start : Parser
start = record { before = []; temp = empty_node; pipe_num = 0 }

abbrev pub finish : Parser → Cmd
finish p = record { nodes = p.before ++ (p.temp ∷ []); pipe_num = p.pipe_num }

-- `none`: a command has more than ten arguments, and an argument is written outside of the array.
unfoldable pub split_line : Text → Option Cmd
split_line s = elim (parse start (tokens_from [] s)) [ none ↦ none | some p ↦ some (finish p) ]
