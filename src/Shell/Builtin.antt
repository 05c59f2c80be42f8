-- ===== src/Shell/Builtin.antt =====
-- Lab2/src/builtin.c: the table of built-in commands, and what they print.
use fall_oslab.Base.{
  ℕ, zero, suc, ◌+◌, ◌-◌, ◌%◌, List, [], ◌∷◌, ◌++◌, Option, none, some, Bool, true, false, ◌==◌,
  ltb, ◌&&◌, if◌then◌else◌, length, get_or,
}
use fall_oslab.Shell.Command.{Text, History, max_record_num, CmdNode}

-- strcmp(s, t) == 0
abbrev pub text_eq : Text → Text → Bool
text_eq [] [] = true
text_eq [] (d ∷ ds) = false
text_eq (c ∷ cs) [] = false
text_eq (c ∷ cs) (d ∷ ds) = c == d && text_eq cs ds

-- builtin_str, and the functions that builtin_func has at the same places.
pub data Builtin : Type 0 where
  help cd pwd echo exit_shell record_history : Builtin

abbrev pub builtin_str : List Text
builtin_str =
    (b'h' ∷ b'e' ∷ b'l' ∷ b'p' ∷ [])
    ∷ (b'c' ∷ b'd' ∷ [])
    ∷ (b'p' ∷ b'w' ∷ b'd' ∷ [])
    ∷ (b'e' ∷ b'c' ∷ b'h' ∷ b'o' ∷ [])
    ∷ (b'e' ∷ b'x' ∷ b'i' ∷ b't' ∷ [])
    ∷ (b'r' ∷ b'e' ∷ b'c' ∷ b'o' ∷ b'r' ∷ b'd' ∷ [])
    ∷ []

abbrev pub builtin_func : List Builtin
builtin_func = help ∷ cd ∷ pwd ∷ echo ∷ exit_shell ∷ record_history ∷ []

abbrev pub num_builtins : ℕ
num_builtins = length builtin_str

-- The loop of searchBuiltInCommand from index i on; `none` is -1.
unfoldable pub search_from : Text → List Text → (i : ℕ) → Option ℕ
search_from name [] i = none
search_from name (s ∷ ss) i =
    let rest = search_from name ss (i + 1) in if text_eq name s then some i else rest

-- What searchBuiltInCommand returns, unless args[0] is NULL and strcmp faults.
pub data Search : Type 0 where
  faults : Search
  is_external : Search
  is_builtin : ℕ → Search

abbrev pub found : Option ℕ → Search
found none = is_external
found (some i) = is_builtin i

unfoldable pub search_builtin_command : CmdNode → Search
search_builtin_command cmd = elim cmd.args [
  | [] ↦ faults
  | name ∷ rest ↦ found (search_from name builtin_str 0)
]

-- The return value of the function at that place: 0 leaves the shell.
abbrev pub status_of : Builtin → ℕ
status_of exit_shell = 0
status_of _ = 1

unfoldable pub exec_built_in_command : (status : ℕ) → ℕ
exec_built_in_command status = status_of (get_or builtin_func status help)

-- What echo prints of args[i], args[i + 1], …: the words with a blank between them.
unfoldable pub echo_words : List Text → Text
echo_words [] = []
echo_words (a ∷ []) = a
echo_words (a ∷ b ∷ rest) = a ++ (b' ' ∷ echo_words (b ∷ rest))

abbrev pub dash_n : Text
dash_n = b'-' ∷ b'n' ∷ []

-- echo on args[1], args[2], …: a first argument "-n" is skipped, and so is the newline then.
unfoldable pub echo_output : List Text → Text
echo_output [] = b'\n' ∷ []
echo_output (a ∷ rest) =
    if text_eq a dash_n then echo_words rest else echo_words (a ∷ rest) ++ (b'\n' ∷ [])

-- The first loop of record, for history_count < MAX_RECORD_NUM: numbers and lines.
unfoldable pub first_lines : History → (rounds i : ℕ) → List (ℕ × Text)
first_lines h zero i = []
first_lines h (suc n) i = (i + 1, h.history i) ∷ first_lines h n (i + 1)

-- The second loop, once round the ring from `off`.
unfoldable pub ring_lines : History → (off rounds i : ℕ) → List (ℕ × Text)
ring_lines h off zero i = []
ring_lines h off (suc n) i =
    (i - off + 1, h.history (i % max_record_num)) ∷ ring_lines h off n (i + 1)

-- record: what it prints.
unfoldable pub record_lines : History → List (ℕ × Text)
record_lines h =
    let off = h.history_count % max_record_num in
    if ltb h.history_count max_record_num
    then first_lines h h.history_count 0
    else ring_lines h off max_record_num off
