-- ===== src/Logger/Tests.antt =====
-- The theorem about log lines at a concrete one.
use magio.Prelude.{ℕ, List, ◌≡◌, refl, true, false, [], ◌∷◌, arith}
use magio.Logger.{Logger, Message, warn, debug, to_string, output, printed, write, console_write}
use magio.Logger.Line.{write_lem}
use magio.Logger.Pattern.{Fields}

-- The level and the line.
abbrev asked : Fields
asked = record {
  level = true;
  date = false;
  time = false;
  file = false;
  line = true;
  thread_id = false;
}

abbrev short_lines : Logger
short_lines = record { level = debug; pattern = 17; output_fn = 5 }

abbrev message : Message
message = record {
  file = 97 ∷ [];
  line = 42;
  level = warn;
  date = [];
  time = [];
  thread_id = 1;
  format = 104 ∷ 105 ∷ [];
}

-- "warn l:42 hi" and the end of the line.
abbrev line : List ℕ
line = 119 ∷ 97 ∷ 114 ∷ 110 ∷ 32 ∷ 108 ∷ 58 ∷ 52 ∷ 50 ∷ 32 ∷ 104 ∷ 105 ∷ 10 ∷ []

write_lem_example :
    (write short_lines message ≡ output 5 line) × (console_write short_lines message ≡ printed line)
unfolding to_string
write_lem_example = write_lem short_lines asked message refl (omega arith)
