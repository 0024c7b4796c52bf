-- ===== src/AsyncLogger/System.antt =====
-- utils/async_logger.h: writers, the background thread and the destructor, interleaved at `mutex_`.
use magio.Prelude.{ℕ, ◌≡◌, ◌≤◌, Bool, some, List, [], ◌++◌, if◌then◌else◌, length}
use magio.Buffer.{empty_buffer, small_buffer_size}
use magio.AsyncLogger.Rounds.{lengths}
use magio.AsyncLogger.{AsyncLogger, Back, construct, write, stop, collect, print_round}

-- `waiting`: before the critical section, in `wait_for` or not.
pub data Phase : Type 0 where
  waiting printing exited : Phase

-- `logged` records the texts written, in the order of their critical sections.
pub record System : Type 0 where
  pub logger : AsyncLogger
  pub back : Back
  pub phase : Phase
  pub logged : List ℕ

abbrev pub after_round : Bool → Phase
after_round stop_flag = if stop_flag then exited else waiting

-- `wait_for` may return at any time. A text longer than the thread's buffer is left out.
pub data Step (s : System) : System → Type 0 where
  writes :
      (text : List ℕ) (l : AsyncLogger) (notified : Bool)
      → length text ≤ small_buffer_size
      → write s.logger text ≡ some (l, notified)
      → Step s (record s { logger = l; logged = s.logged ++ text })
  stops : Step s (record s { logger = stop s.logger })
  collects :
      (l : AsyncLogger) (b : Back)
      → s.phase ≡ waiting
      → collect s.logger s.back ≡ some (l, b)
      → Step s (record s { logger = l; back = b; phase = printing })
  prints :
      (counts : List ℕ) (b : Back)
      → s.phase ≡ printing
      → print_round counts s.back ≡ some b
      → Step s (record s { back = b; phase = after_round s.logger.stop_flag })

abbrev pub init : System
init = record {
  logger = construct;
  back = record {
    current_alter_buf = some empty_buffer;
    next_alter_buf = some empty_buffer;
    buffers_to_print = [];
    file = [];
  };
  phase = waiting;
  logged = [];
}

pub data Reach : System → Type 0 where
  here : Reach init
  later : {s t : System} → Reach s → Step s t → Reach t

-- Each call of `file.write` in a step, or in a run, writes the whole of its buffer.
abbrev pub WholeStep : {s t : System} → Step s t → Type 0
WholeStep (writes text l n h e) = Unit
WholeStep stops = Unit
WholeStep (collects l b h e) = Unit
WholeStep {s} (prints counts b h e) = counts ≡ lengths s.back.buffers_to_print

abbrev pub Whole : {s : System} → Reach s → Type 0
Whole here = Unit
Whole (later r st) = Whole r × WholeStep st
