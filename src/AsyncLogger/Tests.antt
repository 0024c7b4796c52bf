-- ===== src/AsyncLogger/Tests.antt =====
-- A run of the logger, and the theorems about it there.
use magio.Prelude.{◌≡◌, ◌≢◌, refl, false, none, some, [], ◌∷◌, ◌++◌, arith}
use magio.Buffer.{empty_buffer, append, append_format, rest, slice}
use magio.AsyncLogger.{
  AsyncLogger, Back, construct, write_into, write_impl, write, stop, collect, take_full,
  supply_next, print, written, refill, print_round,
}
use magio.AsyncLogger.System.{System, exited, writes, stops, collects, prints, Reach, here, later}
use magio.AsyncLogger.Rounds.{held, lengths, left_over}
use magio.AsyncLogger.Order.{GoesOn, nothing_lost, never_faults, round_left_over}

record Run : Type 0 where
  last : System
  reach : Reach last

abbrev hello : AsyncLogger
hello = record {
  stop_flag = false;
  current = some (record { data_bytes = 104 ∷ 105 ∷ []; size = 2 });
  next = some empty_buffer;
  ready = [];
}

-- A text is written, and the destructor has begun.
abbrev said : Run
unfolding construct write write_impl write_into stop append_format append rest slice
said = record {
  last = _;
  reach = later (later here (writes (104 ∷ 105 ∷ []) hello false (omega arith) refl)) stops;
}

-- The round of the background thread then writes both bytes, and is its last.
abbrev printed : Run
unfolding said construct write write_impl write_into stop append_format append rest slice collect
    take_full supply_next print_round refill written
printed = record {
  last = _;
  reach = later (later said.reach (collects _ _ refl refl)) (prints (2 ∷ []) _ refl refl);
}

nothing_lost_example :
    printed.last.logged
    ≡ printed.last.back.file
      ++ print printed.last.back.buffers_to_print
      ++ (print printed.last.logger.ready ++ held printed.last.logger.current)
unfolding said printed construct write write_impl write_into stop append_format append rest slice
    collect take_full supply_next print_round refill written
nothing_lost_example = nothing_lost printed.reach ((((tt, tt), tt), tt), refl)

printed_result : (printed.last.back.file ≡ 104 ∷ 105 ∷ []) × (printed.last.phase ≡ exited)
unfolding said printed construct write write_impl write_into stop append_format append rest slice
    collect take_full supply_next print_round refill written
printed_result = (refl, refl)

never_faults_example :
    (write said.last.logger (106 ∷ []) ≢ none)
    × GoesOn (2 ∷ []) said.last.phase said.last.logger said.last.back
never_faults_example = never_faults said.reach (106 ∷ []) (2 ∷ []) (omega arith)

round_left_over_example :
    (l : AsyncLogger) × (b b' : Back) × (collect said.last.logger said.last.back ≡ some (l, b))
    × (print_round (lengths b.buffers_to_print) b ≡ some b')
    × (said.last.logged ≡ b'.file ++ left_over said.last.logger.ready said.last.logger.current)
unfolding said construct write write_impl write_into stop append_format append rest slice
round_left_over_example = round_left_over said.reach ((tt, tt), tt) refl
