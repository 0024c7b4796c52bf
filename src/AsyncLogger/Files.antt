-- ===== src/AsyncLogger/Files.antt =====
-- utils/async_logger.h: the files that the background thread opens, one after the other. A day has
-- `one_day` ticks of the clock.
use mathlib.Core.List.{append_assoc, append-nil}
use magio.Prelude.{
  ℕ, suc, ◌+◌, ◌-◌, ◌%◌, ◌^◌, ◌≡◌, refl, ap, sym, ◌∙◌, List, [], ◌∷◌, ◌++◌, leb, length, arith,
  if◌then◌else◌, Bool-cases, inl, inr,
}

pub record LogFile : Type 0 where
  pub time : ℕ  -- the time and the number that its name has
  pub id : ℕ
  pub bytes : List ℕ

-- `older` has the files that were closed, the newest first.
pub record Files : Type 0 where
  pub file_id : ℕ
  pub record_time : ℕ
  pub file : LogFile
  pub older : List LogFile

-- `++file_id_`, and the empty file of that name.
abbrev pub open_file : (file_id now : ℕ) → LogFile
open_file id now = record { time = now; id = (id + 1) % 2 ^ 64; bytes = [] }

-- Before the loop of `run_in_background`; `file_id_` is `n`.
pub begin : (n : ℕ) (recorded opened : ℕ) → Files
begin n recorded opened = record {
  file_id = (n + 1) % 2 ^ 64;
  record_time = recorded;
  file = open_file n opened;
  older = [];
}

-- The readings of the clock in a round: in the test, in the name, and of `record_time`.
pub record Clock : Type 0 where
  pub tested : ℕ
  pub opened : ℕ
  pub recorded : ℕ

abbrev in_order : List LogFile → List ℕ
in_order [] = []
in_order (x ∷ xs) = in_order xs ++ x.bytes

abbrev contents : Files → List ℕ
contents f = in_order f.older ++ f.file.bytes

-- The names, the newest first, have the numbers that count down to 1.
abbrev InTurn : List LogFile → Type 0
InTurn [] = Unit
InTurn (x ∷ xs) = (x.id ≡ suc (length xs) % 2 ^ 64) × InTurn xs

record Numbered (f : Files) : Type 0 where
  newest : f.file.id ≡ f.file_id
  in_turn : InTurn (f.file ∷ f.older)

abbrev printed_by : List (Clock × List ℕ) → List ℕ
printed_by [] = []
printed_by ((c, printed) ∷ rs) = printed ++ printed_by rs

module _ (one_day : ℕ) where
  pub change : Clock → Files → Files
  change c f =
      if leb one_day (c.tested - f.record_time)
      then record {
        file_id = (f.file_id + 1) % 2 ^ 64;
        record_time = c.recorded;
        file = open_file f.file_id c.opened;
        older = f.file ∷ f.older;
      }
      else f

  -- The start of a round, and its writes.
  pub round : Clock → (printed : List ℕ) → Files → Files
  unfolding change
  round c printed f =
      let g = change c f in record g { file = record g.file { bytes = g.file.bytes ++ printed } }

  pub rounds : List (Clock × List ℕ) → Files → Files
  unfolding round
  rounds [] f = f
  rounds ((c, printed) ∷ rs) f = rounds rs (round c printed f)

  change-contents : (c : Clock) (f : Files) → contents (change c f) ≡ contents f
  unfolding change
  change-contents c f = elim (Bool-cases (leb one_day (c.tested - f.record_time))) [
    | inl e ↦ rw (e) (append-nil (contents f))
    | inr e ↦ rw (e) refl
  ]

  change-Numbered : (c : Clock) (f : Files) → Numbered f → Numbered (change c f)
  unfolding change
  change-Numbered c f v = elim (Bool-cases (leb one_day (c.tested - f.record_time))) [
    | inl e ↦
        rw (e)
          (record { newest = refl; in_turn = (omega (arith, v.newest, v.in_turn.0), v.in_turn) })
    | inr e ↦ rw (e) v
  ]

  -- The files together have what the rounds print, in order, and their names are numbered in turn.
  rounds_lem :
      (rs : List (Clock × List ℕ)) (f : Files)
      → Numbered f
      → (contents (rounds rs f) ≡ contents f ++ printed_by rs) × Numbered (rounds rs f)
  unfolding rounds round
  rounds_lem [] f v = (sym (append-nil (contents f)), v)
  rounds_lem ((c, printed) ∷ rs) f v =
      let g = change c f in
      let w = change-Numbered c f v in
      let (same, numbered) =
        rounds_lem rs (round c printed f) (record { newest = w.newest; in_turn = w.in_turn }) in
      (
        same
            ∙ ap (λ l. l ++ printed_by rs)
                (sym (append_assoc (in_order g.older) g.file.bytes printed)
                  ∙ ap (λ l. l ++ printed) (change-contents c f))
            ∙ append_assoc (contents f) printed (printed_by rs),
        numbered,
      )

  -- From the constructor on, where the last number is 0.
  files_lem :
      (rs : List (Clock × List ℕ)) (recorded opened : ℕ)
      → (contents (rounds rs (begin 0 recorded opened)) ≡ printed_by rs)
        × Numbered (rounds rs (begin 0 recorded opened))
  unfolding begin
  files_lem rs recorded opened =
      rounds_lem rs (begin 0 recorded opened) (record { newest = refl; in_turn = (refl, tt) })
