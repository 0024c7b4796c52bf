-- ===== src/Logger.antt =====
-- utils/logger.h: Logger, up to the call of the output function. What the format library prints for
-- the date and the time, the name of the file, the user's format string and the number of the
-- thread are arguments.
pub mod Line
pub mod Pattern
mod Tests
use magio.Prelude.{
  ℕ, zero, suc, ◌+◌, ◌*◌, ◌/◌, ◌%◌, Bool, true, false, Option, none, some, List, [], ◌∷◌, ◌++◌,
  ◌==◌, ltb, if◌then◌else◌, ◌>>=◌,
}
use magio.Buffer.{StaticBuffer, empty_buffer, append, append_format, slice}

pub data LogLevel : Type 0 where
  trace debug info warn error fatal off : LogLevel

abbrev pub level_number : LogLevel → ℕ
level_number trace = 0
level_number debug = 1
level_number info = 2
level_number warn = 3
level_number error = 4
level_number fatal = 5
level_number off = 6

pub record Logger : Type 0 where
  pub level : LogLevel
  pub pattern : ℕ
  pub output_fn : ℕ

set_output : Logger → (fn : ℕ) → Logger
set_output l fn = record l { output_fn = fn }

set_level : Logger → LogLevel → Logger
set_level l level = record l { level = level }

set_pattern : Logger → (pattern : ℕ) → Logger
set_pattern l pattern = record l { pattern = pattern }

-- Of a bit of the pattern, whether it is set.
abbrev pub has : ℕ → ℕ → Bool
has pattern bit = pattern / bit % 2 == 1

abbrev pub level_text : LogLevel → List ℕ
level_text trace = 116 ∷ 114 ∷ 97 ∷ 99 ∷ 101 ∷ 32 ∷ []
level_text debug = 100 ∷ 101 ∷ 98 ∷ 117 ∷ 103 ∷ 32 ∷ []
level_text info = 105 ∷ 110 ∷ 102 ∷ 111 ∷ 32 ∷ []
level_text warn = 119 ∷ 97 ∷ 114 ∷ 110 ∷ 32 ∷ []
level_text error = 101 ∷ 114 ∷ 114 ∷ 111 ∷ 114 ∷ 32 ∷ []
level_text fatal = 102 ∷ 97 ∷ 116 ∷ 97 ∷ 108 ∷ 32 ∷ []
level_text off = []

-- `std::to_string`, of at most 20 digits, as a number below 2^64 has.
digits : (fuel : ℕ) → ℕ → List ℕ
digits zero n = []
digits (suc k) n =
    let rest = digits k (n / 10) in if ltb n 10 then (48 + n) ∷ [] else rest ++ (48 + n % 10) ∷ []

pub to_string : ℕ → List ℕ
unfolding digits
to_string n = digits 20 n

-- A call of `append`, or of `append_format` with the text that is printed.
pub data Part : Type 0 where
  plain formatted : List ℕ → Part

pub record Message : Type 0 where
  pub file : List ℕ
  pub line : ℕ
  pub level : LogLevel
  pub date : List ℕ
  pub time : List ℕ
  pub thread_id : ℕ
  pub format : List ℕ

abbrev pub when : Bool → List Part → List Part
when true ps = ps
when false ps = []

-- The parts after the date and the time, all by `append`.
pub later_texts : ℕ → Message → List (List ℕ)
unfolding to_string
later_texts pattern m =
    (if has pattern 8 then (102 ∷ 58 ∷ []) ∷ m.file ∷ (32 ∷ []) ∷ [] else [])
    ++ (if has pattern 16 then (108 ∷ 58 ∷ []) ∷ to_string m.line ∷ (32 ∷ []) ∷ [] else [])
    ++ (if has pattern 32
        then (105 ∷ 100 ∷ 58 ∷ []) ∷ to_string m.thread_id ∷ (32 ∷ []) ∷ []
        else [])
    ++ m.format ∷ (10 ∷ []) ∷ []

abbrev pub plains : List (List ℕ) → List Part
plains [] = []
plains (t ∷ ts) = plain t ∷ plains ts

-- What `build_fmt_str` appends, in order.
pub parts : ℕ → Message → List Part
unfolding later_texts
parts pattern m =
    when (has pattern 1) (plain (level_text m.level) ∷ [])
    ++ when (has pattern 2) (formatted m.date ∷ [])
    ++ when (has pattern 4) (formatted m.time ∷ [])
    ++ plains (later_texts pattern m)

abbrev pub format_buffer_size : ℕ
format_buffer_size = 4000

abbrev pub put_part : StaticBuffer → Part → Option StaticBuffer
put_part b (plain t) = append format_buffer_size b t >>= λ r. some r.0
put_part b (formatted t) = append_format format_buffer_size b t >>= λ r. some r.0

pub put_parts : StaticBuffer → List Part → Option StaticBuffer
put_parts b [] = some b
put_parts b (p ∷ ps) = put_part b p >>= λ b'. put_parts b' ps

-- `local_fmt` after `clear` and the appends; `none` is a write past its end.
pub build_fmt_str : Logger → Message → Option StaticBuffer
unfolding put_parts parts
build_fmt_str l m = put_parts empty_buffer (parts l.pattern m)

-- What a call of `write` hands to the output function, or `console_write` to `fmt::vprint`, if it
-- does.
pub data Written : Type 0 where
  nothing fault : Written
  output : (fn : ℕ) (format : List ℕ) → Written
  printed : (format : List ℕ) → Written

abbrev pub output_of : (List ℕ → Written) → Option StaticBuffer → Written
output_of hand none = fault
output_of hand (some b) = hand (slice b)

unfoldable pub write : Logger → Message → Written
unfolding build_fmt_str
write l m =
    let out = output_of (output l.output_fn) (build_fmt_str l m) in
    if ltb (level_number m.level) (level_number l.level) then nothing else out

pub console_write : Logger → Message → Written
unfolding build_fmt_str
console_write l m =
    let out = output_of printed (build_fmt_str l m) in
    if ltb (level_number m.level) (level_number l.level) then nothing else out
