-- ===== src/Coro/Lost.antt =====
-- core/coro.h: what becomes of the coroutine of a Coro that is assigned to.
use magio.Prelude.{
  ℕ, ◌≡◌, ◌≢◌, refl, ap, sym, ◌∙◌, subst, Option, none, some, ◌==◌, arith, Bool-cases, inl, inr,
  some-inj, ◌∷◌,
}
use magio.Coro.Frames.{
  initial, Frame, Frames, find, set_frame, remove, find-set_frame_other, find-remove_other,
}
use magio.Coro.System.{
  yield, yields, return_value, returns, unhandled_exception, throws, World, set_object,
  get_return_object, move_construct, move_assign, release, dropped, destroy, spawn, await_suspend,
  begin, wake, resume_prev, final_suspend, free, Step, creates, constructs, assigns, destroys,
  spawns, awaits, begins, ends, frees, Reach, later,
}
use magio.Coro.Alive.{Inv}
use magio.Coro.Safety.{Reach-Inv}

-- The frame at `h` is at its initial suspension, and no Coro holds it.
record Lost (h : ℕ) (fs : Frames) (object : ℕ → Option ℕ) : Type 0 where
  frame : Frame
  found : find h fs ≡ some frame
  fresh : frame.phase ≡ initial
  unheld : (k : ℕ) → object k ≢ some h

module _ {h : ℕ} {fs : Frames} {object : ℕ → Option ℕ} (l : Lost h fs object) where
  started_ne : (g : ℕ) (f : Frame) → find g fs ≡ some f → f.phase ≢ initial → h ≢ g
  started_ne g f e p same = p (
      ap (λ (x : Frame). x.phase) (some-inj (sym e ∙ ap (λ k. find k fs) (sym same) ∙ l.found))
      ∙ l.fresh)

  held_ne : (i g : ℕ) → object i ≡ some g → h ≢ g
  held_ne i g e same = l.unheld i (e ∙ ap some (sym same))

  -- Another frame changes.
  set-Lost : (g : ℕ) (f : Frame) → h ≢ g → Lost h (set_frame g f fs) object
  set-Lost g f n = record {
    frame = l.frame;
    found = find-set_frame_other g h f fs n ∙ l.found;
    fresh = l.fresh;
    unheld = l.unheld;
  }

  remove-Lost : (g : ℕ) → h ≢ g → Lost h (remove g fs) object
  remove-Lost g n = record {
    frame = l.frame;
    found = find-remove_other g h fs n ∙ l.found;
    fresh = l.fresh;
    unheld = l.unheld;
  }

  absent_ne : (g : ℕ) → find g fs ≡ none → h ≢ g
  absent_ne g e same = ground (arith, e, l.found, ap (λ k. find k fs) same)

  add-Lost : (g : ℕ) (f : Frame) → h ≢ g → Lost h ((g, f) ∷ fs) object
  unfolding find
  add-Lost g f n = record {
    frame = l.frame;
    found = ground (arith, n, l.found);
    fresh = l.fresh;
    unheld = l.unheld;
  }

  object-Lost : (i : ℕ) (o : Option ℕ) → o ≢ some h → Lost h fs (set_object object i o)
  object-Lost i o n = record {
    frame = l.frame;
    found = l.found;
    fresh = l.fresh;
    unheld = λ k. ground (arith, n, l.unheld k);
  }

none_ne : {h : ℕ} → none ≢ some h
none_ne e = ground (arith, e)

abbrev LostIn : ℕ → World → Type 0
LostIn h w = Lost h w.frames w.object

release-Lost :
    (h : ℕ) (w w' : World) (i g : ℕ) (o : Option Frame)
    → LostIn h w
    → h ≢ g
    → release w i g o ≡ some w'
    → LostIn h w'
release-Lost h w w' i g none l n e = absurd (ground (arith, e))
release-Lost h w w' i g (some f) l n e = elim (Bool-cases f.is_launched) [
  | inl b ↦ subst (LostIn h) (some-inj (rw (b) at e)) (object-Lost l i none none_ne)
  | inr b ↦
      subst (LostIn h) (some-inj (rw (b) at e)) (object-Lost (remove-Lost l g n) i none none_ne)
]

dropped-Lost :
    (h : ℕ) (w w' : World) (i : ℕ) (o : Option ℕ)
    → LostIn h w
    → w.object i ≡ o
    → dropped w i o ≡ some w'
    → LostIn h w'
dropped-Lost h w w' i none l q e = subst (LostIn h) (some-inj e) (object-Lost l i none none_ne)
dropped-Lost h w w' i (some g) l q e =
    release-Lost h w w' i g (find g w.frames) l (held_ne l i g q) e

wake-Lost :
    (h p : ℕ) (fs : Frames) (object : ℕ → Option ℕ) (o : Option Frame)
    → Lost h fs object
    → h ≢ p
    → Lost h (wake o p fs) object
wake-Lost h p fs object none l n = l
wake-Lost h p fs object (some g) l n = set-Lost l p _ n

resume_prev-Lost :
    (h : ℕ) (fs : Frames) (object : ℕ → Option ℕ) (o : Option ℕ)
    → Lost h fs object
    → ((p : ℕ) → o ≡ some p → h ≢ p)
    → Lost h (resume_prev o fs) object
resume_prev-Lost h fs object none l n = l
resume_prev-Lost h fs object (some p) l n = wake-Lost h p fs object (find p fs) l (n p refl)

Step-Lost : {w w' : World} (h : ℕ) → Inv w.frames w.coro_num → LostIn h w → Step w w' → LostIn h w'
unfolding get_return_object move_construct move_assign destroy spawn await_suspend begin
    final_suspend free yield return_value unhandled_exception
Step-Lost {w} h v l (creates i g e f) =
    let n = absent_ne l g f in object-Lost (add-Lost l g _ n) i (some g) (λ c. n (sym (some-inj c)))
Step-Lost {w} h v l (constructs i j e) =
    object-Lost (object-Lost l j (w.object i) (l.unheld i)) i none none_ne
Step-Lost {w} h v l (assigns i j) =
    object-Lost (object-Lost l j (w.object i) (l.unheld i)) i none none_ne
Step-Lost {w} {w'} h v l (destroys i e) = dropped-Lost h w w' i (w.object i) l refl e
Step-Lost {w} h v l (spawns i g f handler o e p) = set-Lost l g _ (held_ne l i g o)
Step-Lost {w} h v l (awaits i g p f k o e q e' q') =
    set-Lost (set-Lost l p _ (started_ne l p k e' (λ c. ground (arith, c, q')))) g _
      (held_ne l i g o)
Step-Lost {w} h v l (begins g f rest q e p) =
    set-Lost l g _ (started_ne l g f e (λ c. ground (arith, c, p)))
Step-Lost {w} h v l (yields g f e p) =
    set-Lost l g _ (started_ne l g f e (λ c. ground (arith, c, p)))
Step-Lost {w} h v l (returns g f x e p) =
    set-Lost l g _ (started_ne l g f e (λ c. ground (arith, c, p)))
Step-Lost {w} h v l (throws g f x e p) =
    set-Lost l g _ (started_ne l g f e (λ c. ground (arith, c, p)))
Step-Lost {w} h v l (ends g f e p) =
    resume_prev-Lost h _ w.object f.prev_handle
      (set-Lost l g _ (started_ne l g f e (λ c. ground (arith, c, p))))
      (λ q prev.
        let a = v.waited g q f e prev (λ c. ground (arith, c, p)) in
        started_ne l q a.frame a.found (λ c. ground (arith, c, a.suspended)))
Step-Lost {w} h v l (frees g f e p) =
    remove-Lost l g (started_ne l g f e (λ c. ground (arith, c, p)))

pub data Steps (w : World) : World → Type 0 where
  nothing : Steps w w
  step : {v v' : World} → Steps w v → Step v v' → Steps w v'

Steps-Reach : {w w' : World} → Reach w → Steps w w' → Reach w'
Steps-Reach r nothing = r
Steps-Reach r (step s x) = later (Steps-Reach r s) x

Steps-Lost : {w w' : World} (h : ℕ) → Reach w → LostIn h w → Steps w w' → LostIn h w'
Steps-Lost h r l nothing = l
Steps-Lost h r l (step s x) = Step-Lost h (Reach-Inv (Steps-Reach r s)) (Steps-Lost h r l s) x

unheld_after :
    (o : ℕ → Option ℕ) (i j h k : ℕ)
    → o i ≢ some h
    → (k ≢ j → o k ≢ some h)
    → set_object (set_object o j (o i)) i none k ≢ some h
unheld_after o i j h k ni nk = elim (Bool-cases (i == k)) [
  | inl b ↦ rw (b) none_ne
  | inr b ↦ elim (Bool-cases (j == k)) [
    | inl c ↦ rw (b, c) ni
    | inr c ↦ rw (b, c) (nk (λ same. ground (arith, c, same)))
  ]
]

-- When a Coro `j`, which alone holds a coroutine that was not launched, is assigned another one `i`, the
-- frame of that coroutine is neither resumed nor destroyed by whatever happens afterwards.
pub assigned_lost :
    {w w' : World} (i j h : ℕ) (f : Frame)
    → Reach w
    → find h w.frames ≡ some f
    → f.phase ≡ initial
    → w.object j ≡ some h
    → ((k : ℕ) → k ≢ j → w.object k ≢ some h)
    → i ≢ j
    → Steps (move_assign w i j) w'
    → (g : Frame) × (find h w'.frames ≡ some g) × (g.phase ≡ initial)
unfolding move_assign
assigned_lost {w} i j h f r e p o only n s =
    let l =
      Steps-Lost h (later r (assigns i j))
        (record {
          frame = f;
          found = e;
          fresh = p;
          unheld = λ k. unheld_after w.object i j h k (only i n) (only k);
        })
        s in
    (l.frame, l.found, l.fresh)
