-- ===== src/Shell/Command/Jobs.antt =====
-- Command lines of Lab2 as their user means them, and how they are printed.
use fall_oslab.Base.{ℕ, ◌≤◌, ◌<◌, ◌≢◌, List, [], ◌∷◌, ◌++◌, Option, none, some, length}
use fall_oslab.Shell.Command.{Text, CmdNode, first}

-- A command of a pipeline as its user means it.
pub record Job : Type 0 where
  pub words : List Text
  pub input : Option Text
  pub output : Option Text

abbrev pub node_of : Job → CmdNode
node_of j = record { args = j.words; in_file = j.input; out_file = j.output; in_fd = 0; out_fd = 1 }

abbrev pub optional : ℕ → Option Text → List Text → List Text
optional mark none rest = rest
optional mark (some file) rest = (mark ∷ []) ∷ file ∷ rest

abbrev pub bar_tokens : List Job → List Text
bar_tokens [] = []
bar_tokens (j ∷ js) =
    (b'|' ∷ []) ∷ (j.words ++ optional b'<' j.input (optional b'>' j.output (bar_tokens js)))

-- The tokens of a pipeline: words, `< file`, `> file`, and a bar before the next command.
abbrev pub job_tokens : Job → List Job → List Text
job_tokens j js = j.words ++ optional b'<' j.input (optional b'>' j.output (bar_tokens js))

-- Every token is followed by a blank.
abbrev pub print : List Text → Text
print [] = []
print (t ∷ ts) = t ++ (b' ' ∷ print ts)

abbrev pub BlankFree : Text → Type 0
BlankFree [] = Unit
BlankFree (c ∷ cs) = (c ≢ b' ') × BlankFree cs

pub record IsToken (t : Text) : Type 0 where
  pub not_empty : 0 < length t
  pub blank_free : BlankFree t

pub record IsArgument (t : Text) : Type 0 where
  pub is_token : IsToken t
  pub no_bar : first t ≢ b'|'
  pub no_in : first t ≢ b'<'
  pub no_out : first t ≢ b'>'

abbrev pub Arguments : List Text → Type 0
Arguments [] = Unit
Arguments (t ∷ ts) = IsArgument t × Arguments ts

abbrev pub IsFile : Option Text → Type 0
IsFile none = Unit
IsFile (some t) = IsToken t

-- The words of a command that args holds: with ten, no NULL stands behind them.
pub record IsJob (j : Job) : Type 0 where
  pub arguments : Arguments j.words
  pub room : length j.words ≤ 10
  pub input_file : IsFile j.input
  pub output_file : IsFile j.output

abbrev pub Jobs : List Job → Type 0
Jobs [] = Unit
Jobs (j ∷ js) = IsJob j × Jobs js

abbrev pub Tokens : List Text → Type 0
Tokens [] = Unit
Tokens (t ∷ ts) = IsToken t × Tokens ts
