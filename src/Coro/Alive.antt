-- ===== src/Coro/Alive.antt =====
-- core/coro.h: CoroNum, and the coroutine that FinalSuspend resumes.
use magio.Prelude.{
  ℕ, ◌+◌, ◌-◌, ◌≡◌, ◌≢◌, refl, ap, sym, ◌∙◌, ◌⊎◌, subst, true, false, none, some, ◌∷◌, ◌==◌, ==_iff,
  length, arith, Bool-cases, inl, inr, some-inj,
}
use magio.Coro.Frames.{
  Phase, initial, ended, awaiting, Frame, Frames, find, set_frame, remove, IsDistinct,
  length-set_frame, length-remove, find-set_frame_same, find-set_frame_other, find-remove_same,
  find-remove_other, set_frame-IsDistinct, remove-IsDistinct,
}
use magio.Coro.System.{new_frame, start}

-- `p` is suspended in `co_await` of `h`.
pub record Awaits (fs : Frames) (p h : ℕ) : Type 0 where
  pub frame : Frame
  pub found : find p fs ≡ some frame
  pub suspended : frame.phase ≡ awaiting h

-- CoroNum is the number of frames; a frame that was not launched is at its initial suspension; what a
-- frame has to resume is suspended in `co_await` of it.
pub record Inv (fs : Frames) (n : ℕ) : Type 0 where
  pub counted : n ≡ length fs
  pub distinct : IsDistinct fs
  pub unlaunched :
      (h : ℕ) (f : Frame) → find h fs ≡ some f → f.is_launched ≡ false → f.phase ≡ initial
  pub waited :
      (h p : ℕ) (f : Frame)
      → find h fs ≡ some f
      → f.prev_handle ≡ some p
      → f.phase ≢ ended
      → Awaits fs p h

-- Frames that agree at `p` agree on what `p` awaits.
pub Awaits-at : (fs gs : Frames) (p h : ℕ) → find p gs ≡ find p fs → Awaits fs p h → Awaits gs p h
Awaits-at fs gs p h e a = record { frame = a.frame; found = e ∙ a.found; suspended = a.suspended }

-- No frame that has not ended is awaited by one in the phase `ph`.
abbrev Unawaiting : Frames → Phase → Type 0
Unawaiting fs ph = (k : ℕ) (e : Frame) → ph ≡ awaiting k → find k fs ≡ some e → e.phase ≡ ended

callee : Phase → ℕ
callee (awaiting k) = k
callee _ = 0

pub awaiting-inj : {h k : ℕ} → awaiting h ≡ awaiting k → h ≡ k
unfolding callee
awaiting-inj e = ap callee e

set-cases :
    (fs : Frames) (h k : ℕ) (f f' g : Frame)
    → find h fs ≡ some f
    → find k (set_frame h f' fs) ≡ some g
    → ((k ≡ h) × (g ≡ f')) ⊎ ((k ≢ h) × (find k fs ≡ some g))
set-cases fs h k f f' g e p = elim (Bool-cases (k == h)) [
  | inl b ↦
      let same = (==_iff k h).0 b in
      let q = find-set_frame_same h f' f fs e in
      inl (same, some-inj (sym p ∙ ap (λ x. find x (set_frame h f' fs)) same ∙ q))
  | inr b ↦
      let other : k ≢ h = λ c. ground (arith, b, c) in
      inr (other, sym (find-set_frame_other h k f' fs other) ∙ p)
]

remove-found :
    (fs : Frames) (h k : ℕ) (g : Frame)
    → IsDistinct fs
    → find k (remove h fs) ≡ some g
    → (k ≢ h) × (find k fs ≡ some g)
remove-found fs h k g d p = elim (Bool-cases (k == h)) [
  | inl b ↦
      let q = ap (λ x. find x (remove h fs)) ((==_iff k h).0 b) ∙ find-remove_same h fs d in
      absurd (ground (arith, p, q))
  | inr b ↦
      let other : k ≢ h = λ c. ground (arith, b, c) in
      (other, sym (find-remove_other h k fs other) ∙ p)
]

-- What is awaited by a frame in another phase than `h` is in keeps what awaits it.
Awaits-ne :
    (fs : Frames) (h k q : ℕ) (f x : Frame)
    → find h fs ≡ some f
    → Unawaiting fs f.phase
    → find k fs ≡ some x
    → x.phase ≢ ended
    → Awaits fs q k
    → q ≢ h
Awaits-ne fs h k q f x e unawaiting p live a c =
    let same : f ≡ a.frame = some-inj (sym e ∙ sym (ap (λ y. find y fs) c) ∙ a.found) in
    live (unawaiting k x (ap (λ y. y.phase) same ∙ a.suspended) p)

-- One frame changes its phase.
pub set_phase-Inv :
    (fs : Frames) (n h : ℕ) (f f' : Frame)
    → Inv fs n
    → find h fs ≡ some f
    → f'.prev_handle ≡ f.prev_handle
    → f'.is_launched ≡ true
    → f.phase ≢ ended
    → Unawaiting fs f.phase
    → Inv (set_frame h f' fs) n
set_phase-Inv fs n h f f' v e prev launched live unawaiting = record {
  counted = v.counted ∙ sym (length-set_frame h f' fs);
  distinct = set_frame-IsDistinct h f' fs v.distinct;
  unlaunched = λ k g p q. elim (set-cases fs h k f f' g e p) [
    | inl (a, b) ↦ absurd (ground (arith, q, launched, b))
    | inr (a, b) ↦ v.unlaunched k g b q
  ];
  waited = λ k q g p r s. elim (set-cases fs h k f f' g e p) [
    | inl (a, b) ↦
        let old = v.waited h q f e (sym prev ∙ sym (ap (λ y. y.prev_handle) b) ∙ r) live in
        let keep =
          find-set_frame_other h q f' fs (Awaits-ne fs h h q f f e unawaiting e live old) in
        subst (λ y. Awaits (set_frame h f' fs) q y) (sym a) (Awaits-at fs _ q h keep old)
    | inr (a, b) ↦
        let old = v.waited k q g b r s in
        let keep = find-set_frame_other h q f' fs (Awaits-ne fs h k q f g e unawaiting b s old) in
        Awaits-at fs _ q k keep old
  ];
}

pub not_idle :
    (fs : Frames) (h q k : ℕ) (f : Frame)
    → find h fs ≡ some f
    → ((k : ℕ) → f.phase ≢ awaiting k)
    → Awaits fs q k
    → q ≢ h
not_idle fs h q k f e idle a c =
    let same : f ≡ a.frame = some-inj (sym e ∙ sym (ap (λ y. find y fs) c) ∙ a.found) in
    idle k (ap (λ y. y.phase) same ∙ a.suspended)

not_initial :
    (fs : Frames) (h q k : ℕ) (f : Frame)
    → find h fs ≡ some f
    → f.phase ≡ initial
    → Awaits fs q k
    → q ≢ h
not_initial fs h q k f e start a = not_idle fs h q k f e (λ j c. ground (arith, start, c)) a

find_add :
    (fs : Frames) (h q : ℕ) (g : Frame)
    → find h fs ≡ none
    → find q fs ≡ some g
    → find q ((h, new_frame) ∷ fs) ≡ find q fs
unfolding find
find_add fs h q g e p = elim (Bool-cases (q == h)) [
  | inl b ↦ let c = ap (λ y. find y fs) ((==_iff q h).0 b) ∙ e in absurd (ground (arith, p, c))
  | inr b ↦ rw (b) refl
]

-- `h` is launched, and has `p`, which awaits it, to resume.
pub set_prev-Inv :
    (fs : Frames) (n h p : ℕ) (f f' : Frame)
    → Inv fs n
    → find h fs ≡ some f
    → f.phase ≡ initial
    → f'.is_launched ≡ true
    → f'.prev_handle ≡ some p
    → Awaits fs p h
    → Inv (set_frame h f' fs) n
set_prev-Inv fs n h p f f' v e start launched prev a = record {
  counted = v.counted ∙ sym (length-set_frame h f' fs);
  distinct = set_frame-IsDistinct h f' fs v.distinct;
  unlaunched = λ k g x q. elim (set-cases fs h k f f' g e x) [
    | inl (same, b) ↦ absurd (ground (arith, q, launched, b))
    | inr (other, b) ↦ v.unlaunched k g b q
  ];
  waited = λ k q g x r s. elim (set-cases fs h k f f' g e x) [
    | inl (same, b) ↦
        let is_p : p ≡ q = some-inj (sym prev ∙ sym (ap (λ y. y.prev_handle) b) ∙ r) in
        let there =
          Awaits-at fs (set_frame h f' fs) p h
            (find-set_frame_other h p f' fs (not_initial fs h p h f e start a)) a in
        subst (λ y. Awaits (set_frame h f' fs) q y) (sym same)
          (subst (λ y. Awaits (set_frame h f' fs) y h) is_p there)
    | inr (other, b) ↦
        let old = v.waited k q g b r s in
        Awaits-at fs _ q k (find-set_frame_other h q f' fs (not_initial fs h q k f e start old)) old
  ];
}

-- A frame that awaits nothing goes.
pub remove-Inv :
    (fs : Frames) (n h : ℕ) (f : Frame)
    → Inv fs n
    → find h fs ≡ some f
    → ((k : ℕ) → f.phase ≢ awaiting k)
    → Inv (remove h fs) (n - 1)
remove-Inv fs n h f v e idle = record {
  counted = omega (arith, v.counted, length-remove h f fs e);
  distinct = remove-IsDistinct h fs v.distinct;
  unlaunched = λ k g p q. v.unlaunched k g (remove-found fs h k g v.distinct p).1 q;
  waited = λ k q g p r s.
      let old = v.waited k q g (remove-found fs h k g v.distinct p).1 r s in
      Awaits-at fs _ q k (find-remove_other h q fs (not_idle fs h q k f e idle old)) old;
}

-- A new frame at its initial suspension.
pub add-Inv :
    (fs : Frames) (n h : ℕ) → Inv fs n → find h fs ≡ none → Inv ((h, new_frame) ∷ fs) (n + 1)
unfolding find IsDistinct
add-Inv fs n h v e = record {
  counted = omega (arith, v.counted);
  distinct = (e, v.distinct);
  unlaunched = λ k g p q. elim (Bool-cases (k == h)) [
    | inl b ↦ ap (λ y. y.phase) (sym (some-inj (rw (b) at p)))
    | inr b ↦ v.unlaunched k g (rw (b) at p) q
  ];
  waited = λ k q g p r s. elim (Bool-cases (k == h)) [
    | inl b ↦
        let blank = ap (λ y. y.prev_handle) (some-inj (rw (b) at p)) in
        absurd (ground (arith, blank, r))
    | inr b ↦
        let old = v.waited k q g (rw (b) at p) r s in
        Awaits-at fs _ q k (find_add fs h q old.frame e old.found) old
  ];
}
