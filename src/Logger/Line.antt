-- ===== src/Logger/Line.antt =====
-- utils/logger.h: the line that write and console_write hand on.
use magio.Prelude.{
  ℕ, zero, suc, ◌+◌, ◌-◌, ◌≤◌, ◌≡◌, refl, ap, sym, ◌∙◌, subst, Bool, true, false, some, List, [],
  ◌∷◌, ◌++◌, ltb, if◌then◌else◌, length, take, min, arith, length-append, length-take, take-min,
  take_all,
}
use mathlib.Core.List.{append_assoc, append-nil}
use magio.Buffer.{StaticBuffer, empty_buffer, slice}
use magio.Logger.Pattern.{Fields, pattern_of, line_of, text_of, parts_lem}
use magio.Buffer.Bounds.{IsValid, append_lem, append_format_fits}
use magio.Logger.{
  Logger, Message, LogLevel, trace, debug, info, warn, error, fatal, off, level_number, level_text,
  has, Part, plain, formatted, when, plains, later_texts, parts, put_part, put_parts, build_fmt_str,
  Written, nothing, output, printed, output_of, write, console_write, format_buffer_size,
}

-- The buffer has the first bytes of `t`, as many as it can.
record Holds (b : StaticBuffer) (t : List ℕ) : Type 0 where
  valid : IsValid format_buffer_size b
  bytes : b.data_bytes ≡ take format_buffer_size t

-- Printed texts fit, when `n` bytes precede the parts.
abbrev Fits : ℕ → List Part → Type 0
Fits n [] = Unit
Fits n (plain t ∷ ps) = Fits (n + length t) ps
Fits n (formatted t ∷ ps) = (n + length t ≤ format_buffer_size) × Fits (n + length t) ps

zero_sub : (n : ℕ) → 0 - n ≡ 0
zero_sub n = omega arith

sub_zero : (n : ℕ) → n - 0 ≡ n
sub_zero n = omega arith

sub-suc : (k n : ℕ) → suc k - suc n ≡ k - n
sub-suc k n = omega arith

take-append_over :
    (k : ℕ) (xs ys : List ℕ) → take k (xs ++ ys) ≡ take k xs ++ take (k - length xs) ys
take-append_over zero xs ys = rw (zero_sub (length xs)) refl
take-append_over (suc k) [] ys = rw (sub_zero (suc k)) refl
take-append_over (suc k) (x ∷ xs) ys =
    rw (sub-suc k (length xs)) (ap (λ zs. x ∷ zs) (take-append_over k xs ys))

size_lem : (b : StaticBuffer) (t : List ℕ) → Holds b t → b.size ≡ min format_buffer_size (length t)
size_lem b t h = sym h.valid.counted ∙ ap length h.bytes ∙ length-take format_buffer_size t

room : (s n : ℕ) → s ≡ min format_buffer_size n → format_buffer_size - s ≡ format_buffer_size - n
room s n e = omega (arith, e)

append-Holds :
    (b : StaticBuffer) (t msg : List ℕ)
    → Holds b t
    → (b' : StaticBuffer) × (put_part b (plain msg) ≡ some b') × Holds b' (t ++ msg)
append-Holds b t msg h =
    let (b', e, d, v) = append_lem format_buffer_size (omega arith) b h.valid msg in
    (
      b',
      rw (e) refl,
      record {
        valid = v;
        bytes =
            d
            ∙ ap (λ xs. xs ++ take (min (format_buffer_size - b.size) (length msg)) msg) h.bytes
            ∙ ap (λ ys. take format_buffer_size t ++ ys)
                (take-min (format_buffer_size - b.size) msg
                  ∙ ap (λ n. take n msg) (room b.size (length t) (size_lem b t h)))
            ∙ sym (take-append_over format_buffer_size t msg);
      },
    )

format-Holds :
    (b : StaticBuffer) (t text : List ℕ)
    → Holds b t
    → length t + length text ≤ format_buffer_size
    → (b' : StaticBuffer) × (put_part b (formatted text) ≡ some b') × Holds b' (t ++ text)
format-Holds b t text h fits =
    let (b', e, d, v) =
      append_format_fits format_buffer_size (omega arith) b h.valid text
        (omega (arith, fits, size_lem b t h)) in
    (
      b',
      rw (e) refl,
      record {
        valid = v;
        bytes =
            d
            ∙ ap (λ xs. xs ++ text) (h.bytes ∙ take_all format_buffer_size t (omega (arith, fits)))
            ∙ sym (
                take_all format_buffer_size (t ++ text)
                  (omega (arith, fits, length-append t text)));
      },
    )

put_parts-Holds :
    (b : StaticBuffer) (t : List ℕ) (ps : List Part)
    → Holds b t
    → Fits (length t) ps
    → (b' : StaticBuffer) × (put_parts b ps ≡ some b') × Holds b' (t ++ text_of ps)
unfolding put_parts
put_parts-Holds b t [] h f = (b, refl, subst (Holds b) (sym (append-nil t)) h)
put_parts-Holds b t (plain m ∷ ps) h f =
    let (b1, e, h1) = append-Holds b t m h in
    let (b2, e2, h2) =
      put_parts-Holds b1 (t ++ m) ps h1 (subst (λ n. Fits n ps) (sym (length-append t m)) f) in
    (b2, rw (e) e2, subst (Holds b2) (append_assoc t m (text_of ps)) h2)
put_parts-Holds b t (formatted m ∷ ps) h f =
    let (b1, e, h1) = format-Holds b t m h f.0 in
    let (b2, e2, h2) =
      put_parts-Holds b1 (t ++ m) ps h1 (subst (λ n. Fits n ps) (sym (length-append t m)) f.1) in
    (b2, rw (e) e2, subst (Holds b2) (append_assoc t m (text_of ps)) h2)

plains-Fits : (n : ℕ) (ts : List (List ℕ)) → Fits n (plains ts)
plains-Fits n [] = tt
plains-Fits n (t ∷ ts) = plains-Fits (n + length t) ts

level_text-short : (l : LogLevel) → length (level_text l) ≤ 6
level_text-short trace = omega arith
level_text-short debug = omega arith
level_text-short info = omega arith
level_text-short warn = omega arith
level_text-short error = omega arith
level_text-short fatal = omega arith
level_text-short off = omega arith

-- The texts of the date and the time come early enough to fit.
header-Fits :
    (a b c : Bool) (l : LogLevel) (date time : List ℕ) (ts : List (List ℕ))
    → length date + length time ≤ 3994
    → Fits 0 (
        when a (plain (level_text l) ∷ [])
        ++ when b (formatted date ∷ [])
        ++ when c (formatted time ∷ [])
        ++ plains ts)
header-Fits true true true l date time ts h =
    (omega (arith, h, level_text-short l), (omega (arith, h, level_text-short l), plains-Fits _ ts))
header-Fits true true false l date time ts h =
    (omega (arith, h, level_text-short l), plains-Fits _ ts)
header-Fits true false true l date time ts h =
    (omega (arith, h, level_text-short l), plains-Fits _ ts)
header-Fits true false false l date time ts h = plains-Fits _ ts
header-Fits false true true l date time ts h =
    (omega (arith, h), (omega (arith, h), plains-Fits _ ts))
header-Fits false true false l date time ts h = (omega (arith, h), plains-Fits _ ts)
header-Fits false false true l date time ts h = (omega (arith, h), plains-Fits _ ts)
header-Fits false false false l date time ts h = plains-Fits _ ts

empty-Holds : Holds empty_buffer []
empty-Holds = record { valid = record { counted = refl; bounded = omega arith }; bytes = refl }

slice-Holds : (b : StaticBuffer) (t : List ℕ) → Holds b t → slice b ≡ take format_buffer_size t
unfolding slice
slice-Holds b t h =
    ap (λ n. take n b.data_bytes) (sym h.valid.counted) ∙ take_all _ _ (omega arith) ∙ h.bytes

output_of_lem :
    (hand : List ℕ → Written) (l : Logger) (m : Message)
    → length m.date + length m.time ≤ 3994
    → output_of hand (build_fmt_str l m)
      ≡ hand (take format_buffer_size (text_of (parts l.pattern m)))
unfolding build_fmt_str parts
output_of_lem hand l m h =
    let (b, e, holds) = put_parts-Holds empty_buffer [] (parts l.pattern m) empty-Holds (
      header-Fits (has l.pattern 1) (has l.pattern 2) (has l.pattern 4) m.level m.date m.time
        (later_texts l.pattern m) h) in
    ap (output_of hand) e ∙ ap hand (slice-Holds b _ holds)

-- For a logger whose pattern asks for some of the fields level, date, time, file, line and thread
-- id: when the texts of the date and the time have at most 3994 bytes together, write and
-- console_write do nothing with a message below the level of the logger, and otherwise hand to the
-- output function or to the console the first 4000 bytes of the line that has these fields, in this
-- order, and then the format string and the end of the line; they never write past the end of the
-- buffer.
pub write_lem :
    (l : Logger) (f : Fields) (m : Message)
    → l.pattern ≡ pattern_of f
    → length m.date + length m.time ≤ 3994
    → (let low = ltb (level_number m.level) (level_number l.level) in
        let line = take format_buffer_size (line_of f m) in
        (write l m ≡ (if low then nothing else output l.output_fn line))
        × (console_write l m ≡ (if low then nothing else printed line)))
unfolding write console_write
write_lem l f m e h =
    let low = ltb (level_number m.level) (level_number l.level) in
    let same = ap (λ p. text_of (parts p m)) e ∙ parts_lem f m in
    let line = λ (hand : List ℕ → Written).
      output_of_lem hand l m h ∙ ap (λ t. hand (take format_buffer_size t)) same in
    (
      ap (λ out. if low then nothing else out) (line (output l.output_fn)),
      ap (λ out. if low then nothing else out) (line printed),
    )
