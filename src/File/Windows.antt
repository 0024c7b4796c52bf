-- ===== src/File/Windows.antt =====
-- core/file.cpp: the Windows form of the opening of files, of File::open and of the offset at which a
-- RandomAccessFile writes. The system's answers are arguments.
use magio.Prelude.{
  ℕ, ◌+◌, ◌%◌, ◌^◌, ◌<◌, ◌≡◌, ◌≢◌, refl, Bool, true, false, not, Option, none, some, ◌==◌,
  if◌then◌else◌, ◌>>=◌, inl, inr, arith, Bool-cases, ==_iff, ap, ◌∙◌,
}
use magio.File.{if_flag, has, access, open_flags, File, blank_file}
use magio.File.RandomAccess.{RandomAccessFile}

abbrev generic_read : ℕ
generic_read = 2 ^ 31

abbrev generic_write : ℕ
generic_write = 2 ^ 30

abbrev desired_access : ℕ → Option ℕ
desired_access mode =
    if mode % 8 == 1
    then some generic_read
    else (if mode % 8 == 2
        then some generic_write
        else (if mode % 8 == 4 then some (generic_read + generic_write) else none))

abbrev create_always : ℕ
create_always = 2

abbrev open_existing : ℕ
open_existing = 3

abbrev open_always : ℕ
open_always = 4

abbrev truncate_existing : ℕ
truncate_existing = 5

abbrev creation_disposition : ℕ → ℕ
creation_disposition mode =
    if has 16 mode
    then (if has 8 mode then create_always else truncate_existing)
    else (if has 8 mode then open_always else open_existing)

-- `system` is CreateFile, which gives a handle, or INVALID_HANDLE_VALUE.
pub open_file : (system : (access disposition : ℕ) → Option ℕ) → (mode : ℕ) → Option ℕ
open_file system mode = desired_access mode >>= λ a. system a (creation_disposition mode)

-- `size` is what GetFileSizeEx stores.
pub open_with : (system : (access disposition : ℕ) → Option ℕ) → (size mode : ℕ) → File
unfolding open_file
open_with system size mode = record blank_file {
  handle = open_file system mode;
  write_offset = if has 32 mode then size else 0;
}

-- The offset of `write_at`.
pub write_offset : RandomAccessFile → (size offset : ℕ) → ℕ
write_offset f size offset = if f.enable_app then size else offset

-- What a file lets one do: read, and write.
abbrev unix_rights : ℕ → Bool × Bool
unix_rights flags = (not (flags % 4 == 1), not (flags % 4 == 0))

abbrev windows_rights : ℕ → Bool × Bool
windows_rights a = (has generic_read a, has generic_write a)

-- `open` (2) and CreateFile: whether the call succeeds for a file that is there or is not, and if it
-- does whether what was in the file is still there.
pub record System : Type 0 where
  pub unix : (flags : ℕ) (there : Bool) → Option Bool
  pub windows : (access disposition : ℕ) (there : Bool) → Option Bool
  pub opens :
      (flags : ℕ) (there : Bool)
      → unix flags there ≡ (
          if there then some (not (has 512 flags)) else (if has 64 flags then some false else none))
  pub creates_always : (a : ℕ) (there : Bool) → windows a create_always there ≡ some false
  pub opens_existing :
      (a : ℕ) (there : Bool) → windows a open_existing there ≡ (if there then some true else none)
  pub opens_always : (a : ℕ) (there : Bool) → windows a open_always there ≡ some there
  -- it needs the right to write
  pub truncates_existing :
      (a : ℕ) (there : Bool)
      → has generic_write a ≡ true
      → windows a truncate_existing there ≡ (if there then some false else none)

flags_bits :
    (acc : ℕ) (c t a : Bool)
    → acc < 4
    → let flags = acc + if_flag c 64 + if_flag t 512 + if_flag a 1024 in
      (has 512 flags ≡ t) × (has 64 flags ≡ c) × (flags % 4 ≡ acc)
flags_bits acc true true true h = ground arith
flags_bits acc true true false h = ground arith
flags_bits acc true false true h = ground arith
flags_bits acc true false false h = ground arith
flags_bits acc false true true h = ground arith
flags_bits acc false true false h = ground arith
flags_bits acc false false true h = ground arith
flags_bits acc false false false h = ground arith

abbrev disposition : (create truncate : Bool) → ℕ
disposition c t =
    if t
    then (if c then create_always else truncate_existing)
    else (if c then open_always else open_existing)

module _ (s : System) where
  open s use {
    unix, windows, opens, creates_always, opens_existing, opens_always, truncates_existing,
  }

  -- The rights that one has to the file, and the answer of the system.
  abbrev pub opened_unix : (mode : ℕ) (there : Bool) → Option ((Bool × Bool) × Option Bool)
  opened_unix mode there = open_flags mode >>= λ flags. some (unix_rights flags, unix flags there)

  abbrev pub opened_windows : (mode : ℕ) (there : Bool) → Option ((Bool × Bool) × Option Bool)
  opened_windows mode there = desired_access mode >>= λ a.
      some (windows_rights a, windows a (creation_disposition mode) there)

  answers_agree :
      (flags a : ℕ) (c t there : Bool)
      → has 512 flags ≡ t
      → has 64 flags ≡ c
      → (t ≡ true → has generic_write a ≡ true)
      → unix flags there ≡ windows a (disposition c t) there
  answers_agree flags a true true there p q w =
      ground (arith, p, q, opens flags there, creates_always a there)
  answers_agree flags a false true there p q w =
      ground (arith, p, q, opens flags there, truncates_existing a there (w refl))
  answers_agree flags a true false there p q w =
      ground (arith, p, q, opens flags there, opens_always a there)
  answers_agree flags a false false there p q w =
      ground (arith, p, q, opens flags there, opens_existing a there)

  -- The way of access `acc` is `a` on Windows.
  opened_agree :
      (mode acc a : ℕ) (there : Bool)
      → acc < 4
      → access mode ≡ some acc
      → desired_access mode ≡ some a
      → unix_rights acc ≡ windows_rights a
      → (has 16 mode ≡ true → has generic_write a ≡ true)
      → opened_unix mode there ≡ opened_windows mode there
  unfolding open_flags
  opened_agree mode acc a there l p q rights w =
      let (t, c, r) = flags_bits acc (has 8 mode) (has 16 mode) (has 32 mode) l in
      let same = r ∙ omega (arith, l) in
      let e = ap (λ k. (not (k == 1), not (k == 0))) same ∙ rights in
      let e' = answers_agree _ a (has 8 mode) (has 16 mode) there t c w in
      rw (p, q) (λ i. some (e i, e' i))

  -- A mode that asks for truncation only with the right to write opens the same way on both systems: it
  -- is refused on both, or it gives the same rights and the same answer, for a file that is there and
  -- for one that is not.
  pub systems_agree :
      (mode : ℕ) (there : Bool)
      → (has 16 mode ≡ true → mode % 8 ≢ 1)
      → opened_unix mode there ≡ opened_windows mode there
  unfolding open_flags
  systems_agree mode there h = elim (Bool-cases (mode % 8 == 1)) [
    | inl e ↦
        opened_agree mode 0 generic_read there (omega arith) (ground (arith, e)) (ground (arith, e))
          refl (λ t. absurd (h t ((==_iff (mode % 8) 1).0 e)))
    | inr e ↦ elim (Bool-cases (mode % 8 == 2)) [
      | inl e' ↦
          opened_agree mode 1 generic_write there (omega arith) (ground (arith, e, e'))
            (ground (arith, e, e')) refl (λ t. refl)
      | inr e' ↦ elim (Bool-cases (mode % 8 == 4)) [
        | inl f ↦
            opened_agree mode 2 (generic_read + generic_write) there (omega arith)
              (ground (arith, e, e', f)) (ground (arith, e, e', f)) refl (λ t. refl)
        | inr f ↦ rw (e, e', f) refl
      ]
    ]
  ]
