-- ===== src/Coro/Delivery.antt =====
-- core/coro.h: what an awaited coroutine hands to the one that awaits it.
use magio.Prelude.{ℕ, ◌≡◌, refl, ap, sym, ◌∙◌, some, arith}
use magio.Coro.Frames.{
  begun, ended, Frame, find, set_frame, find-set_frame_same, find-set_frame_other,
}
use magio.Coro.System.{
  final_of, resumes, await_resume, World, wake, resume_prev, final_suspend, Reach,
}
use magio.Coro.Alive.{not_idle}
use magio.Coro.Safety.{Reach-Inv}

-- When a coroutine that another one awaits ends, FinalSuspend resumes that one, which is alive, and finds
-- the promise of the coroutine that ended alive, with what it has stored in it.
pub result_delivered :
    {w : World} (h p : ℕ) (f : Frame)
    → Reach w
    → find h w.frames ≡ some f
    → f.phase ≡ begun
    → f.prev_handle ≡ some p
    → let (w', final) = final_suspend w h f in
      (final ≡ resumes p)
      × ((g : Frame) × (find p w'.frames ≡ some g) × (g.phase ≡ begun))
      × ((f' : Frame) × (find h w'.frames ≡ some f') × (await_resume f' ≡ await_resume f))
unfolding final_suspend final_of await_resume
result_delivered {w} h p f r e b q =
    let v = Reach-Inv r in
    let a = v.waited h p f e q (λ c. ground (arith, b, c)) in
    let other = not_idle w.frames h p h f e (λ k c. ground (arith, b, c)) a in
    let f' : Frame = record f { phase = ended } in
    let fs = set_frame h f' w.frames in
    let there : find p fs ≡ some a.frame = find-set_frame_other h p f' w.frames other ∙ a.found in
    let same : resume_prev f.prev_handle fs ≡ set_frame p (record a.frame { phase = begun }) fs =
      ap (λ o. resume_prev o fs) q ∙ ap (λ o. wake o p fs) there in
    (
      rw (q) refl,
      (
        record a.frame { phase = begun },
        ap (find p) same ∙ find-set_frame_same p _ a.frame fs there,
        refl,
      ),
      (
        f',
        ap (find h) same
            ∙ find-set_frame_other p h _ fs (λ c. other (sym c))
            ∙ find-set_frame_same h f' f w.frames e,
        refl,
      ),
    )
