-- ===== src/Coro/Frames.antt =====
-- core/coro.h: the frames of coroutines that have not been destroyed, by their addresses.
use magio.Prelude.{
  ℕ, suc, ◌≡◌, ◌≢◌, refl, ap, ◌∙◌, Bool, true, false, Option, none, some, List, [], ◌∷◌, ◌==◌,
  ==_iff, if◌then◌else◌, length, arith, Bool-cases, inl, inr,
}

-- Where a coroutine stands: at its initial suspension, queued in a context, begun, in FinalSuspend with
-- the resumed coroutine or the handler not yet back, or suspended in `co_await` of another one.
pub data Phase : Type 0 where
  initial queued begun ended : Phase
  awaiting : (callee : ℕ) → Phase

-- `storage` of a promise: nothing, what the coroutine returned, or what it threw.
pub data Storage : Type 0 where
  monostate : Storage
  result : ℕ → Storage
  exception_ptr : ℕ → Storage

-- `promise_type`; `callback` is whether there is a completion handler.
pub record Frame : Type 0 where
  pub is_launched : Bool
  pub prev_handle : Option ℕ
  pub callback : Bool
  pub storage : Storage
  pub phase : Phase

abbrev pub Frames : Type 0
Frames = List (ℕ × Frame)

unfoldable pub find : ℕ → Frames → Option Frame
find h [] = none
find h ((g, f) ∷ fs) = let rest = find h fs in if h == g then some f else rest

unfoldable pub set_frame : ℕ → Frame → Frames → Frames
set_frame h f [] = []
set_frame h f ((g, e) ∷ fs) =
    let rest = set_frame h f fs in if h == g then (g, f) ∷ fs else (g, e) ∷ rest

unfoldable pub remove : ℕ → Frames → Frames
remove h [] = []
remove h ((g, e) ∷ fs) = let rest = remove h fs in if h == g then fs else (g, e) ∷ rest

-- No address is that of two frames.
unfoldable pub IsDistinct : Frames → Type 0
IsDistinct [] = Unit
IsDistinct ((g, f) ∷ fs) = (find g fs ≡ none) × IsDistinct fs

other_ne : (h g k : ℕ) → (h == g) ≡ true → k ≢ h → (k == g) ≡ false
other_ne h g k b n = ground arith

ne_sym : (h g : ℕ) → (h == g) ≡ false → g ≢ h
ne_sym h g b = ground arith

pub length-set_frame : (h : ℕ) (f : Frame) (fs : Frames) → length (set_frame h f fs) ≡ length fs
unfolding set_frame
length-set_frame h f [] = refl
length-set_frame h f (x ∷ fs) = ground (arith, length-set_frame h f fs)

pub length-remove :
    (h : ℕ) (f : Frame) (fs : Frames) → find h fs ≡ some f → length fs ≡ suc (length (remove h fs))
unfolding find remove
length-remove h f [] e = absurd (ground (arith, e))
length-remove h f ((g, x) ∷ fs) e = elim (Bool-cases (h == g)) [
  | inl b ↦ rw (b) refl
  | inr b ↦ rw (b) (ap suc (length-remove h f fs (rw (b) at e)))
]

pub find-set_frame_same :
    (h : ℕ) (f e : Frame) (fs : Frames) → find h fs ≡ some e → find h (set_frame h f fs) ≡ some f
unfolding find set_frame
find-set_frame_same h f e [] p = absurd (ground (arith, p))
find-set_frame_same h f e ((g, x) ∷ fs) p = elim (Bool-cases (h == g)) [
  | inl b ↦ rw (b) (rw (b) refl)
  | inr b ↦ rw (b) (rw (b) (find-set_frame_same h f e fs (rw (b) at p)))
]

pub find-set_frame_other :
    (h k : ℕ) (f : Frame) (fs : Frames) → k ≢ h → find k (set_frame h f fs) ≡ find k fs
unfolding find set_frame
find-set_frame_other h k f [] n = refl
find-set_frame_other h k f ((g, x) ∷ fs) n = elim (Bool-cases (h == g)) [
  | inl b ↦ rw (b, other_ne h g k b n) refl
  | inr b ↦ rw (b) (ap (λ r. if k == g then some x else r) (find-set_frame_other h k f fs n))
]

pub find-remove_same : (h : ℕ) (fs : Frames) → IsDistinct fs → find h (remove h fs) ≡ none
unfolding find remove IsDistinct
find-remove_same h [] d = refl
find-remove_same h ((g, x) ∷ fs) d = elim (Bool-cases (h == g)) [
  | inl b ↦ rw (b, (==_iff h g).0 b) d.0
  | inr b ↦ rw (b) (rw (b) (find-remove_same h fs d.1))
]

pub find-remove_other : (h k : ℕ) (fs : Frames) → k ≢ h → find k (remove h fs) ≡ find k fs
unfolding find remove
find-remove_other h k [] n = refl
find-remove_other h k ((g, x) ∷ fs) n = elim (Bool-cases (h == g)) [
  | inl b ↦ rw (b, other_ne h g k b n) refl
  | inr b ↦ rw (b) (ap (λ r. if k == g then some x else r) (find-remove_other h k fs n))
]

pub set_frame-IsDistinct :
    (h : ℕ) (f : Frame) (fs : Frames) → IsDistinct fs → IsDistinct (set_frame h f fs)
unfolding find set_frame IsDistinct
set_frame-IsDistinct h f [] d = tt
set_frame-IsDistinct h f ((g, x) ∷ fs) d = elim (Bool-cases (h == g)) [
  | inl b ↦ rw (b) d
  | inr b ↦
      rw (b) (find-set_frame_other h g f fs (ne_sym h g b) ∙ d.0, set_frame-IsDistinct h f fs d.1)
]

pub remove-IsDistinct : (h : ℕ) (fs : Frames) → IsDistinct fs → IsDistinct (remove h fs)
unfolding find remove IsDistinct
remove-IsDistinct h [] d = tt
remove-IsDistinct h ((g, x) ∷ fs) d = elim (Bool-cases (h == g)) [
  | inl b ↦ rw (b) d.1
  | inr b ↦ rw (b) (find-remove_other h g fs (ne_sym h g b) ∙ d.0, remove-IsDistinct h fs d.1)
]
