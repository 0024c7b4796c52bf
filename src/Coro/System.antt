-- ===== src/Coro/System.antt =====
-- core/coro.h: Coro objects, the frames that they hold, and CoroNum, in one thread. A handle is the
-- address of a frame.
use magio.Prelude.{
  ℕ, ◌+◌, ◌-◌, ◌≡◌, Bool, true, false, Option, none, some, List, [], ◌∷◌, ◌++◌, ◌==◌, if◌then◌else◌,
}
use magio.Coro.Frames.{
  initial, queued, begun, ended, awaiting, Storage, monostate, result, exception_ptr, Frame, Frames,
  find, set_frame, remove,
}

-- `object` has `handle_` of each Coro, `queue` the handles passed to `queue_in_context`.
pub record World : Type 0 where
  pub object : ℕ → Option ℕ
  pub frames : Frames
  pub coro_num : ℕ
  pub queue : List ℕ

abbrev pub set_object : (ℕ → Option ℕ) → ℕ → Option ℕ → ℕ → Option ℕ
set_object o i h j = if i == j then h else o j

abbrev pub new_frame : Frame
new_frame = record {
  is_launched = false;
  prev_handle = none;
  callback = false;
  storage = monostate;
  phase = initial;
}

-- The frame of a call of a coroutine, at `h`; the Coro is `i`.
unfoldable pub get_return_object : World → (i h : ℕ) → World
get_return_object w i h = record w {
  object = set_object w.object i (some h);
  frames = (h, new_frame) ∷ w.frames;
  coro_num = w.coro_num + 1;
}

-- `j` is constructed from `i`.
unfoldable pub move_construct : World → (i j : ℕ) → World
move_construct w i j = record w { object = set_object (set_object w.object j (w.object i)) i none }

-- `j` is assigned `i`.
unfoldable pub move_assign : World → (i j : ℕ) → World
move_assign w i j = record w { object = set_object (set_object w.object j (w.object i)) i none }

abbrev pub release : World → (i h : ℕ) → Option Frame → Option World
release w i h none = none
release w i h (some f) =
    if f.is_launched
    then some (record w { object = set_object w.object i none })
    else some (record w {
      object = set_object w.object i none;
      coro_num = w.coro_num - 1;
      frames = remove h w.frames;
    })

abbrev pub dropped : World → (i : ℕ) → Option ℕ → Option World
dropped w i none = some (record w { object = set_object w.object i none })
dropped w i (some h) = release w i h (find h w.frames)

-- The destructor of `i`; `none` is the use of a promise that was destroyed.
unfoldable pub destroy : World → (i : ℕ) → Option World
destroy w i = dropped w i (w.object i)

-- `launch` and `set_callback`, then `queue_in_context`.
unfoldable pub spawn : World → (h : ℕ) → Frame → (handler : Bool) → World
unfolding set_frame
spawn w h f handler = record w {
  frames =
      set_frame h (record f { is_launched = true; callback = handler; phase = queued }) w.frames;
  queue = w.queue ++ h ∷ [];
}

-- `Awaitable::await_suspend`: `p`, whose frame is `g`, awaits `h`.
unfoldable pub await_suspend : World → (h : ℕ) → Frame → (p : ℕ) → Frame → World
unfolding set_frame
await_suspend w h f p g = record w {
  frames =
      set_frame h (record f { is_launched = true; prev_handle = some p; phase = queued })
        (set_frame p (record g { phase = awaiting h }) w.frames);
  queue = w.queue ++ h ∷ [];
}

-- The context resumes the first handle of its queue.
unfoldable pub begin : World → (h : ℕ) → Frame → (rest : List ℕ) → World
unfolding set_frame
begin w h f rest = record w {
  frames = set_frame h (record f { phase = begun }) w.frames;
  queue = rest;
}

abbrev pub wake : Option Frame → ℕ → Frames → Frames
wake none p fs = fs
wake (some g) p fs = set_frame p (record g { phase = begun }) fs

-- `Yield::await_suspend`: the coroutine goes to the end of the queue.
unfoldable pub yield : World → (h : ℕ) → Frame → World
unfolding set_frame
yield w h f = record w {
  frames = set_frame h (record f { phase = queued }) w.frames;
  queue = w.queue ++ h ∷ [];
}

-- `return_value`.
unfoldable pub return_value : World → (h : ℕ) → Frame → (v : ℕ) → World
unfolding set_frame
return_value w h f v = record w { frames = set_frame h (record f { storage = result v }) w.frames }

unfoldable pub unhandled_exception : World → (h : ℕ) → Frame → (e : ℕ) → World
unfolding set_frame
unhandled_exception w h f e = record w {
  frames = set_frame h (record f { storage = exception_ptr e }) w.frames;
}

-- How `Awaitable::await_resume` ends: it calls std::terminate for what was thrown, since it is noexcept,
-- and gives what was returned, if anything.
pub data Delivered : Type 0 where
  terminates : Delivered
  delivers : (v : Option ℕ) → Delivered

abbrev pub result_of : Storage → Delivered
result_of monostate = delivers none
result_of (result v) = delivers (some v)
result_of (exception_ptr e) = terminates

unfoldable pub await_resume : Frame → Delivered
await_resume f = result_of f.storage

-- What FinalSuspend does with the end of a coroutine.
pub data Final : Type 0 where
  resumes : (prev : ℕ) → Final
  calls_back : (eptr result : Option ℕ) → Final
  nothing : Final

-- The arguments of the handler; what is there with an exception is a default value.
abbrev pub handed : Storage → Final
handed monostate = calls_back none none
handed (result v) = calls_back none (some v)
handed (exception_ptr e) = calls_back (some e) none

unfoldable pub final_of : Frame → Final
final_of f = elim f.prev_handle [
  | some p ↦ resumes p
  | none ↦ if f.callback then handed f.storage else nothing
]

-- `FinalSuspend::await_suspend` up to the resumption of `prev_handle` or the call of the handler.
abbrev pub resume_prev : Option ℕ → Frames → Frames
resume_prev none fs = fs
resume_prev (some p) fs = wake (find p fs) p fs

unfoldable pub final_suspend : World → (h : ℕ) → Frame → World × Final
unfolding set_frame final_of
final_suspend w h f = (
  record w {
    frames = resume_prev f.prev_handle (set_frame h (record f { phase = ended }) w.frames);
  },
  final_of f,
)

-- The rest of it: `--CoroNum` and `destroy`.
unfoldable pub free : World → (h : ℕ) → World
unfolding remove
free w h = record w { coro_num = w.coro_num - 1; frames = remove h w.frames }

-- A coroutine is launched once, by a Coro that holds it.
pub data Step (w : World) : World → Type 0 where
  creates :
      (i h : ℕ) → w.object i ≡ none → find h w.frames ≡ none → Step w (get_return_object w i h)
  constructs : (i j : ℕ) → w.object j ≡ none → Step w (move_construct w i j)
  assigns : (i j : ℕ) → Step w (move_assign w i j)
  destroys : (i : ℕ) {w' : World} → destroy w i ≡ some w' → Step w w'
  spawns :
      (i h : ℕ) (f : Frame) (handler : Bool)
      → w.object i ≡ some h
      → find h w.frames ≡ some f
      → f.phase ≡ initial
      → Step w (spawn w h f handler)
  awaits :
      (i h p : ℕ) (f g : Frame)
      → w.object i ≡ some h
      → find h w.frames ≡ some f
      → f.phase ≡ initial
      → find p w.frames ≡ some g
      → g.phase ≡ begun
      → Step w (await_suspend w h f p g)
  begins :
      (h : ℕ) (f : Frame) (rest : List ℕ)
      → w.queue ≡ h ∷ rest
      → find h w.frames ≡ some f
      → f.phase ≡ queued
      → Step w (begin w h f rest)
  yields : (h : ℕ) (f : Frame) → find h w.frames ≡ some f → f.phase ≡ begun → Step w (yield w h f)
  returns :
      (h : ℕ) (f : Frame) (v : ℕ)
      → find h w.frames ≡ some f
      → f.phase ≡ begun
      → Step w (return_value w h f v)
  throws :
      (h : ℕ) (f : Frame) (e : ℕ)
      → find h w.frames ≡ some f
      → f.phase ≡ begun
      → Step w (unhandled_exception w h f e)
  ends :
      (h : ℕ) (f : Frame)
      → find h w.frames ≡ some f
      → f.phase ≡ begun
      → Step w (final_suspend w h f).0
  frees : (h : ℕ) (f : Frame) → find h w.frames ≡ some f → f.phase ≡ ended → Step w (free w h)

abbrev pub start : World
start = record { object = λ i. none; frames = []; coro_num = 0; queue = [] }

pub data Reach : World → Type 0 where
  here : Reach start
  later : {w w' : World} → Reach w → Step w w' → Reach w'
