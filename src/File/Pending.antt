-- ===== src/File/Pending.antt =====
-- core/file.cpp: files that are used or moved while their requests are pending. A request keeps the
-- address of the object that made it, `pfile`, and its callback writes to the object that is there.
use magio.Prelude.{
  ℕ, ◌+◌, ◌%◌, ◌^◌, ◌≡◌, ◌⊎◌, Bool, true, false, Option, none, some, ◌==◌, if◌then◌else◌, ◌>>=◌,
  List, [], ◌∷◌, ◌++◌,
}
use magio.File.{File, blank_file, read, write, read_completed, write_completed, move_construct}
use magio.File.Offsets.{offset_of}
use magio.IoUring.Poll.{Call}

-- `FileResume`, but for the callback of the user.
pub record FileResume : Type 0 where
  pub reads : Bool
  pub pfile : ℕ

-- The object at each address, and the requests that are pending.
pub record Objects : Type 0 where
  pub object : ℕ → File
  pub requests : List FileResume

abbrev pub put_at : (ℕ → File) → ℕ → File → ℕ → File
put_at o i f j = if i == j then f else o j

-- `read` and `write` of the object at `i`.
pub read_at_object : Objects → (i c buf len user_ptr cb : ℕ) → Option (Objects × Call)
unfolding read
read_at_object w i c buf len p cb = read (w.object i) c buf len p cb >>= λ (f, call). some (
  record {
    object = put_at w.object i f;
    requests = w.requests ++ record { reads = true; pfile = i } ∷ [];
  },
  call,
)

pub write_at_object : Objects → (i c msg len user_ptr cb : ℕ) → Option (Objects × Call)
unfolding write
write_at_object w i c msg len p cb = write (w.object i) c msg len p cb >>= λ (f, call). some (
  record {
    object = put_at w.object i f;
    requests = w.requests ++ record { reads = false; pfile = i } ∷ [];
  },
  call,
)

-- `File(File&&)`: the object at `j` is made from the one at `i`.
pub move_object : Objects → (i j : ℕ) → Objects
unfolding move_construct
move_object w i j =
    let (made, emptied) = move_construct (w.object i) in
    record w { object = put_at (put_at w.object i emptied) j made }

-- The callback of a request, with its result.
pub complete : Objects → FileResume → (res : ℕ) → Objects
unfolding read_completed write_completed
complete w fr res =
    let f = w.object fr.pfile in
    record w {
      object =
          put_at w.object fr.pfile
            (if fr.reads then read_completed f res else write_completed f res);
    }

-- A request of the object at `i`; a second one, of the same object; and a second one after the
-- object was moved to `j`, of the object that is there, with what the completion of the first then
-- does.
pub record Repeats (issue : Objects → ℕ → Option (Objects × Call)) (offset : File → ℕ) (w : Objects)
    (i j res : ℕ) : Type 0 where
  pub first : Objects
  pub again : Objects
  pub elsewhere : Objects
  pub call : Call
  pub call_again : Call
  pub call_elsewhere : Call
  pub resume : FileResume
  pub issued : issue w i ≡ some (first, call)
  pub pending : first.requests ≡ w.requests ++ resume ∷ []
  pub issued_again : issue first i ≡ some (again, call_again)
  pub issued_elsewhere : issue (move_object first i j) j ≡ some (elsewhere, call_elsewhere)
  pub begins : offset_of call ≡ offset (w.object i)
  pub begins_again : offset_of call_again ≡ offset (w.object i)
  pub begins_elsewhere : offset_of call_elsewhere ≡ offset (w.object i)
  pub moved_from : offset ((complete elsewhere resume res).object i) ≡ res % 2 ^ 64
  pub moved_to : offset ((complete elsewhere resume res).object j) ≡ offset (w.object i)

abbrev Attachable : ℕ → File → Type 0
Attachable c f = (f.attached_to ≡ none) ⊎ (f.attached_to ≡ some c)

abbrev with_request : Objects → ℕ → File → Bool → Objects
with_request v k t b = record {
  object = put_at v.object k t;
  requests = v.requests ++ record { reads = b; pfile = k } ∷ [];
}

-- What `read` and `write` have in common.
record Issues (issue : Objects → ℕ → Option (Objects × Call)) (offset : File → ℕ) (c : ℕ) (b : Bool)
    : Type 0 where
  issues :
      (v : Objects) (k : ℕ)
      → Attachable c (v.object k)
      → (t : File) × (call : Call) × (issue v k ≡ some (with_request v k t b, call))
        × Attachable c t
        × (offset_of call ≡ offset (v.object k))
        × (offset t ≡ offset (v.object k))
  blank : offset blank_file ≡ 0
  advances :
      (f : File) (res : ℕ)
      → offset (if b then read_completed f res else write_completed f res)
        ≡ (offset f + res) % 2 ^ 64
