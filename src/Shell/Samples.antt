-- ===== src/Shell/Samples.antt =====
-- Lab2: lines and commands for the runs.
use fall_oslab.Base.{refl, [], ◌∷◌, none, some, arith}
use fall_oslab.Shell.Command.{Text, History}
use fall_oslab.Shell.Command.Log.{Logs}
use fall_oslab.Shell.Command.Jobs.{Job, IsJob, IsToken, IsArgument}

abbrev pub blank_history : History
blank_history = record { history = λ _. []; history_count = 0 }

abbrev pub ls : Text
ls = b'l' ∷ b's' ∷ []

pub blank_history-Logs : Logs blank_history []
blank_history-Logs = record { count = refl; slot = λ i lt near. absurd (omega arith) }

-- ls < in | wc > out
abbrev wc : Text
wc = b'w' ∷ b'c' ∷ []

abbrev in_name : Text
in_name = b'i' ∷ b'n' ∷ []

abbrev pub list_job : Job
list_job = record { words = ls ∷ []; input = some in_name; output = none }

abbrev pub count_job : Job
count_job = record { words = wc ∷ []; input = none; output = some in_name }

in_name-IsToken : IsToken in_name
in_name-IsToken = record { not_empty = omega arith; blank_free = (omega arith, (omega arith, tt)) }

ls-IsArgument : IsArgument ls
ls-IsArgument = record {
  is_token = record { not_empty = omega arith; blank_free = (omega arith, (omega arith, tt)) };
  no_bar = omega arith;
  no_in = omega arith;
  no_out = omega arith;
}

wc-IsArgument : IsArgument wc
wc-IsArgument = record {
  is_token = record { not_empty = omega arith; blank_free = (omega arith, (omega arith, tt)) };
  no_bar = omega arith;
  no_in = omega arith;
  no_out = omega arith;
}

pub list_job-IsJob : IsJob list_job
list_job-IsJob = record {
  arguments = (ls-IsArgument, tt);
  room = omega arith;
  input_file = in_name-IsToken;
  output_file = tt;
}

pub count_job-IsJob : IsJob count_job
count_job-IsJob = record {
  arguments = (wc-IsArgument, tt);
  room = omega arith;
  input_file = tt;
  output_file = in_name-IsToken;
}
