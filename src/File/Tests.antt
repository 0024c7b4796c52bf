-- ===== src/File/Tests.antt =====
-- The theorems about files at concrete inputs.
use magio.Prelude.{
  ◌≡◌, refl, inl, not, ◌==◌, arith, none, if◌then◌else◌, true, false, some, [], ◌∷◌,
}
use magio.File.{File, has, blank_file}
use magio.File.Pending.{Objects}
use magio.File.Windows.{System, opened_unix, opened_windows, systems_agree}
use magio.File.Offsets.{reads, writes, offsets_lem}

offsets_lem_example :
    (reads blank_file 3 (10 ∷ 4 ∷ []) ≡ some (0 ∷ 10 ∷ []))
    × (writes blank_file 3 (10 ∷ 4 ∷ []) ≡ some (0 ∷ 10 ∷ []))
offsets_lem_example = offsets_lem blank_file 3 0 0 (10 ∷ 4 ∷ []) (inl refl) refl refl

abbrev attached : File
attached = record { handle = some 5; attached_to = some 3; read_offset = 10; write_offset = 20 }

abbrev all_attached : Objects
all_attached = record { object = λ k. attached; requests = [] }

-- The systems as they are documented.
abbrev documented : System
documented = record {
  unix = λ flags there.
      if there then some (not (has 512 flags)) else (if has 64 flags then some false else none);
  windows = λ a d there.
      if d == 2
      then some false
      else (if d == 3
          then (if there then some true else none)
          else (if d == 4 then some there else (if there then some false else none)));
  opens = λ flags there. refl;
  creates_always = λ a there. refl;
  opens_existing = λ a there. refl;
  opens_always = λ a there. refl;
  truncates_existing = λ a there h. refl;
}

-- WriteOnly, Create and Truncate, for a file that is not there.
systems_agree_example : opened_unix documented 26 false ≡ opened_windows documented 26 false
systems_agree_example = systems_agree documented 26 false (λ t e. ground (arith, e))

-- It is created, for writing, and empty.
created_for_writing : opened_windows documented 26 false ≡ some ((false, true), some false)
created_for_writing = refl
