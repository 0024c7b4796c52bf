-- ===== src/Coro/Safety.antt =====
-- core/coro.h: what holds in every reachable world of coroutines.
use magio.Prelude.{
  ℕ, ◌≡◌, ◌≢◌, refl, ap, sym, ◌∙◌, true, Option, none, some, arith, Bool-cases, some-inj, inl, inr,
}
use magio.Coro.Frames.{
  IsDistinct, initial, queued, begun, ended, awaiting, Frame, Frames, find, set_frame,
  find-set_frame_same, find-set_frame_other, find-remove_same,
}
use magio.Coro.System.{
  yield, yields, return_value, returns, unhandled_exception, throws, World, set_object,
  get_return_object, move_construct, move_assign, release, dropped, destroy, spawn, await_suspend,
  begin, wake, resume_prev, final_suspend, free, Step, creates, constructs, assigns, destroys,
  spawns, awaits, begins, ends, frees, Reach, here, later,
}
use magio.Coro.Alive.{
  Inv, Awaits, set_phase-Inv, set_prev-Inv, remove-Inv, add-Inv, Awaits-at, awaiting-inj, not_idle,
}

abbrev Sound : World → Type 0
Sound w = Inv w.frames w.coro_num

release-Inv :
    (w w' : World) (i h : ℕ) (o : Option Frame)
    → Sound w
    → find h w.frames ≡ o
    → release w i h o ≡ some w'
    → Sound w'
release-Inv w w' i h none v e r = absurd (ground (arith, r))
release-Inv w w' i h (some f) v e r = elim (Bool-cases f.is_launched) [
  | inl b ↦ rw (sym (some-inj (rw (b) at r))) v
  | inr b ↦ rw (sym (some-inj (rw (b) at r))) (
      remove-Inv w.frames w.coro_num h f v e
        (λ k c. let start = v.unlaunched h f e b in ground (arith, start, c)))
]

dropped-Inv : (w w' : World) (i : ℕ) (o : Option ℕ) → Sound w → dropped w i o ≡ some w' → Sound w'
dropped-Inv w w' i none v r = rw (sym (some-inj r)) v
dropped-Inv w w' i (some h) v r = release-Inv w w' i h _ v refl r

launched :
    (fs : Frames) (n h : ℕ) (f : Frame)
    → Inv fs n
    → find h fs ≡ some f
    → f.phase ≢ initial
    → f.is_launched ≡ true
launched fs n h f v e other = elim (Bool-cases f.is_launched) [
  | inl b ↦ b
  | inr b ↦ absurd (other (v.unlaunched h f e b))
]

-- A coroutine that has begun changes, but for its caller.
begun-Inv :
    (fs : Frames) (n h : ℕ) (f f' : Frame)
    → Inv fs n
    → find h fs ≡ some f
    → f.phase ≡ begun
    → f'.prev_handle ≡ f.prev_handle
    → f'.is_launched ≡ f.is_launched
    → Inv (set_frame h f' fs) n
begun-Inv fs n h f f' v e b prev same =
    set_phase-Inv fs n h f f' v e prev (same ∙ launched fs n h f v e (λ c. ground (arith, b, c)))
      (λ c. ground (arith, b, c)) (λ k x c q. absurd (ground (arith, b, c)))

end-Inv :
    (fs : Frames) (n h : ℕ) (f : Frame)
    → Inv fs n
    → find h fs ≡ some f
    → f.phase ≡ begun
    → Inv (set_frame h (record f { phase = ended }) fs) n
end-Inv fs n h f v e b = begun-Inv fs n h f (record f { phase = ended }) v e b refl refl

wake-Inv :
    (fs : Frames) (n h p : ℕ) (f : Frame) (o : Option Frame)
    → Inv fs n
    → find h fs ≡ some f
    → f.phase ≡ ended
    → find p fs ≡ o
    → Awaits fs p h
    → Inv (wake o p fs) n
wake-Inv fs n h p f none v e d q a = v
wake-Inv fs n h p f (some g) v e d q a =
    let same : g ≡ a.frame = some-inj (sym q ∙ a.found) in
    let ph : g.phase ≡ awaiting h = ap (λ y. y.phase) same ∙ a.suspended in
    set_phase-Inv fs n p g _ v q refl (launched fs n p g v q (λ c. ground (arith, ph, c)))
      (λ c. ground (arith, ph, c))
      (λ k x c r.
        let here : h ≡ k = awaiting-inj (sym ph ∙ c) in
        ap (λ y. y.phase) (some-inj (sym r ∙ sym (ap (λ y. find y fs) here) ∙ e)) ∙ d)

resume_prev-Inv :
    (fs : Frames) (n h : ℕ) (f : Frame) (o : Option ℕ)
    → Inv fs n
    → find h fs ≡ some f
    → f.phase ≡ begun
    → f.prev_handle ≡ o
    → Inv (resume_prev o (set_frame h (record f { phase = ended }) fs)) n
resume_prev-Inv fs n h f none v e b q = end-Inv fs n h f v e b
resume_prev-Inv fs n h f (some p) v e b q =
    let a = v.waited h p f e q (λ c. ground (arith, b, c)) in
    let fs' = set_frame h (record f { phase = ended }) fs in
    let other = not_idle fs h p h f e (λ k c. ground (arith, b, c)) a in
    wake-Inv fs' n h p _ _ (end-Inv fs n h f v e b) (find-set_frame_same h _ f fs e) refl refl
      (Awaits-at fs fs' p h (find-set_frame_other h p _ fs other) a)

apart :
    (fs : Frames) (h p : ℕ) (f g : Frame)
    → find h fs ≡ some f
    → f.phase ≡ initial
    → find p fs ≡ some g
    → g.phase ≡ begun
    → h ≢ p
apart fs h p f g e s q b c =
    let same = ap (λ y. y.phase) (some-inj (sym e ∙ ap (λ y. find y fs) c ∙ q)) in
    ground (arith, s, b, same)

await-Inv :
    (fs : Frames) (n h p : ℕ) (f g : Frame)
    → Inv fs n
    → find h fs ≡ some f
    → f.phase ≡ initial
    → find p fs ≡ some g
    → g.phase ≡ begun
    → Inv
        (set_frame h
          (record f { is_launched = true; prev_handle = some p; phase = queued })
          (set_frame p (record g { phase = awaiting h }) fs))
        n
await-Inv fs n h p f g v e s q b =
    let g' : Frame = record g { phase = awaiting h } in
    let f' : Frame = record f { is_launched = true; prev_handle = some p; phase = queued } in
    let waits =
      set_phase-Inv fs n p g g' v q refl (launched fs n p g v q (λ c. ground (arith, b, c)))
        (λ c. ground (arith, b, c)) (λ k x c r. absurd (ground (arith, b, c))) in
    set_prev-Inv (set_frame p g' fs) n h p f f' waits
      (find-set_frame_other p h g' fs (apart fs h p f g e s q b) ∙ e) s refl refl
      (record { frame = g'; found = find-set_frame_same p g' g fs q; suspended = refl })

Step-Inv : {w w' : World} → Sound w → Step w w' → Sound w'
unfolding get_return_object move_construct move_assign destroy spawn await_suspend begin
    final_suspend free yield return_value unhandled_exception
Step-Inv {w} v (creates i h e f) = add-Inv w.frames w.coro_num h v f
Step-Inv {w} v (constructs i j e) = v
Step-Inv {w} v (assigns i j) = v
Step-Inv {w} {w'} v (destroys i e) = dropped-Inv w w' i (w.object i) v e
Step-Inv {w} v (spawns i h f handler o e p) =
    set_phase-Inv w.frames w.coro_num h f _ v e refl refl (λ c. ground (arith, p, c))
      (λ k x c q. absurd (ground (arith, p, c)))
Step-Inv {w} v (awaits i h p f g o e s q b) = await-Inv w.frames w.coro_num h p f g v e s q b
Step-Inv {w} v (begins h f rest q e p) =
    set_phase-Inv w.frames w.coro_num h f _ v e refl
      (launched w.frames w.coro_num h f v e (λ c. ground (arith, p, c))) (λ c. ground (arith, p, c))
      (λ k x c q. absurd (ground (arith, p, c)))
Step-Inv {w} v (yields h f e p) = begun-Inv w.frames w.coro_num h f _ v e p refl refl
Step-Inv {w} v (returns h f x e p) = begun-Inv w.frames w.coro_num h f _ v e p refl refl
Step-Inv {w} v (throws h f x e p) = begun-Inv w.frames w.coro_num h f _ v e p refl refl
Step-Inv {w} v (ends h f e p) = resume_prev-Inv w.frames w.coro_num h f _ v e p refl
Step-Inv {w} v (frees h f e p) =
    remove-Inv w.frames w.coro_num h f v e (λ k c. ground (arith, p, c))

-- In every reachable world CoroNum is the number of frames alive, a frame that was not launched is at
-- its initial suspension, and what a frame has to resume is alive and suspended in `co_await` of it.
pub Reach-Inv : {w : World} → Reach w → Inv w.frames w.coro_num
unfolding find IsDistinct
Reach-Inv here = record {
  counted = refl;
  distinct = tt;
  unlaunched = λ h f e p. absurd (ground (arith, e));
  waited = λ h p f e q r. absurd (ground (arith, e));
}
Reach-Inv (later r st) = Step-Inv (Reach-Inv r) st

-- While FinalSuspend runs, the destructor of a Coro that still holds the coroutine leaves the frame
-- alone; once FinalSuspend has destroyed the frame, that destructor reads the promise in it.
pub destructor_faults :
    {w : World} (i h : ℕ) (f : Frame)
    → Reach w
    → w.object i ≡ some h
    → find h w.frames ≡ some f
    → f.phase ≡ ended
    → (destroy w i ≡ some (record w { object = set_object w.object i none }))
      × (destroy (free w h) i ≡ none)
unfolding destroy free
destructor_faults {w} i h f r o e p =
    let v = Reach-Inv r in
    let was = launched w.frames w.coro_num h f v e (λ c. ground (arith, p, c)) in
    (rw (o, e, was) refl, rw (o, find-remove_same h w.frames v.distinct) refl)
