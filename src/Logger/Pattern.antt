-- ===== src/Logger/Pattern.antt =====
-- utils/logger.h: what the line of a message should have, told by the fields that the pattern
-- names, apart from the parts that `build_fmt_str` appends.
use mathlib.Core.List.{append_assoc, append-nil}
use magio.Prelude.{
  ℕ, ◌+◌, ◌≡◌, refl, ap, sym, ◌∙◌, Bool, true, false, List, [], ◌∷◌, ◌++◌, if◌then◌else◌, arith,
}
use magio.Logger.{
  Message, LogLevel, trace, debug, info, warn, error, fatal, off, level_text, has, to_string, Part,
  plain, formatted, when, plains, later_texts, parts,
}

-- The fields of a line; the pattern that asks for them.
pub record Fields : Type 0 where
  pub level : Bool
  pub date : Bool
  pub time : Bool
  pub file : Bool
  pub line : Bool
  pub thread_id : Bool

abbrev weight : Bool → ℕ → ℕ
weight b n = if b then n else 0

abbrev pub pattern_of : Fields → ℕ
pattern_of f =
    weight f.level 1
    + weight f.date 2
    + weight f.time 4
    + weight f.file 8
    + weight f.line 16
    + weight f.thread_id 32

bits :
    (a b c d e g : Bool)
    → (let p = weight a 1 + weight b 2 + weight c 4 + weight d 8 + weight e 16 + weight g 32 in
        (has p 1 ≡ a)
        × (has p 2 ≡ b)
        × (has p 4 ≡ c)
        × (has p 8 ≡ d)
        × (has p 16 ≡ e)
        × (has p 32 ≡ g))
bits a b c d e g =
    (ground arith, ground arith, ground arith, ground arith, ground arith, ground arith)

abbrev level_word : LogLevel → List ℕ
level_word trace = 116 ∷ 114 ∷ 97 ∷ 99 ∷ 101 ∷ []
level_word debug = 100 ∷ 101 ∷ 98 ∷ 117 ∷ 103 ∷ []
level_word info = 105 ∷ 110 ∷ 102 ∷ 111 ∷ []
level_word warn = 119 ∷ 97 ∷ 114 ∷ 110 ∷ []
level_word error = 101 ∷ 114 ∷ 114 ∷ 111 ∷ 114 ∷ []
level_word fatal = 102 ∷ 97 ∷ 116 ∷ 97 ∷ 108 ∷ []
level_word off = []

-- A space, a colon and the end of the line.
abbrev space : List ℕ
space = 32 ∷ []

abbrev colon : List ℕ
colon = 58 ∷ []

abbrev end_of_line : List ℕ
end_of_line = 10 ∷ []

abbrev if_asked : Bool → List ℕ → List ℕ
if_asked b text = if b then text else []

-- The name and the text of a field, with a space behind them.
abbrev named : List ℕ → List ℕ → List ℕ
named name text = name ++ colon ++ text ++ space

abbrev level_field : LogLevel → List ℕ
level_field off = []
level_field l = level_word l ++ space

-- The line, of which the text of the date and that of the time end with their own space.
abbrev pub line_of : Fields → Message → List ℕ
line_of f m =
    if_asked f.level (level_field m.level)
    ++ if_asked f.date m.date
    ++ if_asked f.time m.time
    ++ (if_asked f.file (named (102 ∷ []) m.file)
        ++ if_asked f.line (named (108 ∷ []) (to_string m.line))
        ++ if_asked f.thread_id (named (105 ∷ 100 ∷ []) (to_string m.thread_id))
        ++ (m.format ++ end_of_line))

-- The text of a list of parts.
abbrev pub text_of : List Part → List ℕ
text_of [] = []
text_of (plain t ∷ ps) = t ++ text_of ps
text_of (formatted t ∷ ps) = t ++ text_of ps

append_parts :
    (ps qs : List Part) {x y : List ℕ}
    → text_of ps ≡ x
    → text_of qs ≡ y
    → text_of (ps ++ qs) ≡ x ++ y
append_parts [] qs {y = y} e d = d ∙ ap (λ l. l ++ y) e
append_parts (plain t ∷ ps) qs {y = y} e d =
    ap (λ l. t ++ l) (append_parts ps qs refl d)
    ∙ sym (append_assoc t (text_of ps) y)
    ∙ ap (λ l. l ++ y) e
append_parts (formatted t ∷ ps) qs {y = y} e d =
    ap (λ l. t ++ l) (append_parts ps qs refl d)
    ∙ sym (append_assoc t (text_of ps) y)
    ∙ ap (λ l. l ++ y) e

plains-append : (xs ys : List (List ℕ)) → plains (xs ++ ys) ≡ plains xs ++ plains ys
plains-append [] ys = refl
plains-append (x ∷ xs) ys = ap (λ ps. plain x ∷ ps) (plains-append xs ys)

append_texts :
    (xs ys : List (List ℕ)) {x y : List ℕ}
    → text_of (plains xs) ≡ x
    → text_of (plains ys) ≡ y
    → text_of (plains (xs ++ ys)) ≡ x ++ y
append_texts xs ys e d = ap text_of (plains-append xs ys) ∙ append_parts (plains xs) (plains ys) e d

when_lem : (b : Bool) (ps : List Part) → text_of (when b ps) ≡ if_asked b (text_of ps)
when_lem true ps = refl
when_lem false ps = refl

later_lem :
    (b : Bool) (ts : List (List ℕ))
    → text_of (plains (if b then ts else [])) ≡ if_asked b (text_of (plains ts))
later_lem true ts = refl
later_lem false ts = refl

level_text_lem : (l : LogLevel) → level_text l ≡ level_field l
level_text_lem trace = refl
level_text_lem debug = refl
level_text_lem info = refl
level_text_lem warn = refl
level_text_lem error = refl
level_text_lem fatal = refl
level_text_lem off = refl

-- What is appended by a pattern is the line of its fields.
later_texts_lem :
    (f : Fields) (m : Message)
    → text_of (plains (later_texts (pattern_of f) m))
      ≡ if_asked f.file (named (102 ∷ []) m.file)
        ++ if_asked f.line (named (108 ∷ []) (to_string m.line))
        ++ if_asked f.thread_id (named (105 ∷ 100 ∷ []) (to_string m.thread_id))
        ++ (m.format ++ end_of_line)
unfolding later_texts
later_texts_lem f m =
    let (lv, dt, tm, fl, ln, th) = bits f.level f.date f.time f.file f.line f.thread_id in
    let p = pattern_of f in
    let file = (102 ∷ 58 ∷ []) ∷ m.file ∷ (32 ∷ []) ∷ [] in
    let line = (108 ∷ 58 ∷ []) ∷ to_string m.line ∷ (32 ∷ []) ∷ [] in
    let thread = (105 ∷ 100 ∷ 58 ∷ []) ∷ to_string m.thread_id ∷ (32 ∷ []) ∷ [] in
    let last = m.format ∷ (10 ∷ []) ∷ [] in
    let c = if has p 32 then thread else [] in
    let b = if has p 16 then line else [] in
    let a = if has p 8 then file else [] in
    append_texts ((a ++ b) ++ c) last
      (append_texts (a ++ b) c
        (append_texts a b
          (later_lem (has p 8) file ∙ ap (λ x. if_asked x (named (102 ∷ []) m.file)) fl)
          (later_lem (has p 16) line
            ∙ ap (λ x. if_asked x (named (108 ∷ []) (to_string m.line))) ln))
        (later_lem (has p 32) thread
          ∙ ap (λ x. if_asked x (named (105 ∷ 100 ∷ []) (to_string m.thread_id))) th))
      refl

pub parts_lem : (f : Fields) (m : Message) → text_of (parts (pattern_of f) m) ≡ line_of f m
unfolding parts
parts_lem f m =
    let (lv, dt, tm, fl, ln, th) = bits f.level f.date f.time f.file f.line f.thread_id in
    let p = pattern_of f in
    let level = plain (level_text m.level) ∷ [] in
    let date = formatted m.date ∷ [] in
    let time = formatted m.time ∷ [] in
    let later = plains (later_texts p m) in
    let l = when (has p 1) level in
    let d = when (has p 2) date in
    let t = when (has p 4) time in
    append_parts ((l ++ d) ++ t) later
      (append_parts (l ++ d) t
        (append_parts l d
          (when_lem (has p 1) level
            ∙ ap (λ b. if_asked b (level_text m.level ++ [])) lv
            ∙ ap (if_asked f.level) (append-nil (level_text m.level) ∙ level_text_lem m.level))
          (when_lem (has p 2) date
            ∙ ap (λ b. if_asked b (m.date ++ [])) dt
            ∙ ap (if_asked f.date) (append-nil m.date)))
        (when_lem (has p 4) time
          ∙ ap (λ b. if_asked b (m.time ++ [])) tm
          ∙ ap (if_asked f.time) (append-nil m.time)))
      (later_texts_lem f m)
