-- ===== src/File/Offsets.antt =====
-- core/file.cpp: the offsets at which File reads and writes, and the flags of `open`.
use magio.Prelude.{
  ℕ, ◌+◌, ◌%◌, ◌^◌, ◌≡◌, refl, ap, ◌∙◌, Bool, true, false, Option, none, some, List, [], ◌∷◌, ◌>>=◌,
  ◌⊎◌, arith, if◌then◌else◌,
}
use magio.Handle.Attach.{attach_context-stays}
use magio.File.{
  File, attach_result, attach, read, write, read_completed, write_completed, open_flags,
}
use magio.IoUring.Poll.{Call}

abbrev pub offset_of : Call → ℕ
offset_of (Call.read_file ioh buf len offset p cb) = offset
offset_of (Call.write_file ioh msg len offset p cb) = offset
offset_of _ = 0

-- Reads in the context `c`, each completed before the next with the results listed: their offsets.
pub reads : File → (c : ℕ) → List ℕ → Option (List ℕ)
reads f c [] = some []
reads f c (r ∷ rs) = read f c 0 0 0 0 >>= λ (t, call).
    reads (read_completed t r) c rs >>= λ os. some (offset_of call ∷ os)

pub writes : File → (c : ℕ) → List ℕ → Option (List ℕ)
writes f c [] = some []
writes f c (r ∷ rs) = write f c 0 0 0 0 >>= λ (t, call).
    writes (write_completed t r) c rs >>= λ os. some (offset_of call ∷ os)

-- Where contiguous pieces of the lengths listed begin, from `o`.
abbrev pub starts : ℕ → List ℕ → List ℕ
starts o [] = []
starts o (r ∷ rs) = o % 2 ^ 64 ∷ starts (o + r) rs

pub attach-same :
    (f : File) (c : ℕ)
    → (f.attached_to ≡ none) ⊎ (f.attached_to ≡ some c)
    → (t : File) × (attach f c ≡ some t)
      × ((t.attached_to ≡ none) ⊎ (t.attached_to ≡ some c))
      × (t.read_offset ≡ f.read_offset)
      × (t.write_offset ≡ f.write_offset)
unfolding attach
attach-same f c h =
    let (now, b, p, q) = attach_context-stays f.handle f.attached_to c h in
    (record f { attached_to = now }, rw (p, attach_result) refl, q, refl, refl)

sum_wraps : (o r : ℕ) → (o % 2 ^ 64 + r) % 2 ^ 64 ≡ (o + r) % 2 ^ 64
sum_wraps o r = omega arith

reads_lem :
    (f : File) (c : ℕ) (o : ℕ) (rs : List ℕ)
    → (f.attached_to ≡ none) ⊎ (f.attached_to ≡ some c)
    → f.read_offset ≡ o % 2 ^ 64
    → reads f c rs ≡ some (starts o rs)
unfolding reads read read_completed
reads_lem f c o [] h e = refl
reads_lem f c o (r ∷ rs) h e =
    let (t, p, q, a, b) = attach-same f c h in
    let rest =
      reads_lem (read_completed t r) c (o + r) rs q
        (ap (λ n. (n + r) % 2 ^ 64) (a ∙ e) ∙ sum_wraps o r) in
    rw (p, rest, a, e) refl

writes_lem :
    (f : File) (c : ℕ) (o : ℕ) (rs : List ℕ)
    → (f.attached_to ≡ none) ⊎ (f.attached_to ≡ some c)
    → f.write_offset ≡ o % 2 ^ 64
    → writes f c rs ≡ some (starts o rs)
unfolding writes write write_completed
writes_lem f c o [] h e = refl
writes_lem f c o (r ∷ rs) h e =
    let (t, p, q, a, b) = attach-same f c h in
    let rest =
      writes_lem (write_completed t r) c (o + r) rs q
        (ap (λ n. (n + r) % 2 ^ 64) (b ∙ e) ∙ sum_wraps o r) in
    rw (p, rest, b, e) refl

-- A file that is not attached elsewhere reads contiguous pieces, each from where the last one ended
-- (modulo 2 ^ 64), and writes likewise, whatever the results.
pub offsets_lem :
    (f : File) (c o o' : ℕ) (rs : List ℕ)
    → (f.attached_to ≡ none) ⊎ (f.attached_to ≡ some c)
    → f.read_offset ≡ o % 2 ^ 64
    → f.write_offset ≡ o' % 2 ^ 64
    → (reads f c rs ≡ some (starts o rs)) × (writes f c rs ≡ some (starts o' rs))
offsets_lem f c o o' rs h e e' = (reads_lem f c o rs h e, writes_lem f c o' rs h e')

abbrev pub weight : Bool → ℕ → ℕ
weight b n = if b then n else 0

-- `open_flags` reads each bit of the mode: for each of the three ways of access, any choice of
-- Create, Truncate and Append; without a way of access it refuses.
open_flags_lem :
    (c t a : Bool)
    → (let more = weight c 8 + weight t 16 + weight a 32 in
        let flags = weight c 64 + weight t 512 + weight a 1024 in
        (open_flags (1 + more) ≡ some (0 + flags))
        × (open_flags (2 + more) ≡ some (1 + flags))
        × (open_flags (4 + more) ≡ some (2 + flags))
        × (open_flags more ≡ none))
unfolding open_flags
open_flags_lem true true true = (refl, refl, refl, refl)
open_flags_lem true true false = (refl, refl, refl, refl)
open_flags_lem true false true = (refl, refl, refl, refl)
open_flags_lem true false false = (refl, refl, refl, refl)
open_flags_lem false true true = (refl, refl, refl, refl)
open_flags_lem false true false = (refl, refl, refl, refl)
open_flags_lem false false true = (refl, refl, refl, refl)
open_flags_lem false false false = (refl, refl, refl, refl)
