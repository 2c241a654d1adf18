-- ===== src/Standalone/Threads.antt =====
-- The two threads of application/MatrixApplicationStandalone.cpp: `internalLoop` draws a frame and
-- raises `newFrame`, `renderLoop` copies it to the renderer and lowers it. A step is one access of a
-- thread; the accesses of both threads are taken in one order.
use matrixserver.Common.{
  ℕ, suc, ◌≡◌, List, [], ◌∷◌, ◌++◌, some, Bool, true, false, length, replicate, get_elem?,
}
use matrixserver.Application.Life.{AppState, running}

-- Where `internalLoop` stands: before the test of the state, before the test of `newFrame`, in
-- `loop()`, before `newFrame = true` with what `loop()` returned, or behind the loop.
pub data MainAt : Type 0 where
  turn waits draws ended : MainAt
  publishes : Bool → MainAt

-- Where `renderLoop` stands: before the test of `newFrame`, in the loop over the screens, or in
-- `renderToScreens`.
pub data RenderAt : Type 0 where
  waits_frame copies renders : RenderAt

-- `screens` holds for each screen the number of the frame that is drawn on it, `render_screens` what
-- the renderer was given of the present frame. `drawn` counts the calls of `loop()` that ended,
-- `shown` lists what `render()` showed.
pub record Threads : Type 0 where
  pub app_state : AppState
  pub new_frame : Bool
  pub main_at : MainAt
  pub render_at : RenderAt
  pub screens : List ℕ
  pub render_screens : List ℕ
  pub drawn : ℕ
  pub shown : List (List ℕ)

abbrev pub threads_start : ℕ → Threads
threads_start count = record {
  app_state = running;
  new_frame = false;
  main_at = turn;
  render_at = waits_frame;
  screens = replicate count 0;
  render_screens = [];
  drawn = 0;
  shown = [];
}

abbrev pub next_turn : Bool → MainAt
next_turn true = turn
next_turn false = ended

-- A step of either thread with `count` screens, or a change of the state from outside.
pub data Step (count : ℕ) : Threads → Threads → Type 0 where
  state_set : (s : Threads) (a : AppState) → Step count s (record s { app_state = a })
  turn_taken :
      (s : Threads)
      → s.main_at ≡ turn
      → s.app_state ≡ running
      → Step count s (record s { main_at = waits })
  frame_free :
      (s : Threads)
      → s.main_at ≡ waits
      → s.new_frame ≡ false
      → Step count s (record s { main_at = draws })
  drawing :
      (s : Threads) (screens : List ℕ)
      → s.main_at ≡ draws
      → Step count s (record s { screens = screens })
  loop_ends :
      (s : Threads) (running : Bool)
      → s.main_at ≡ draws
      → Step count s (record s {
        main_at = publishes running;
        screens = replicate count (suc s.drawn);
        drawn = suc s.drawn;
      })
  frame_published :
      (s : Threads) (running : Bool)
      → s.main_at ≡ publishes running
      → Step count s (record s { main_at = next_turn running; new_frame = true })
  frame_found :
      (s : Threads)
      → s.render_at ≡ waits_frame
      → s.new_frame ≡ true
      → Step count s (record s { render_at = copies; render_screens = [] })
  screen_copied :
      (s : Threads) (content : ℕ)
      → s.render_at ≡ copies
      → get_elem? s.screens (length s.render_screens) ≡ some content
      → Step count s (record s { render_screens = s.render_screens ++ (content ∷ []) })
  frame_taken :
      (s : Threads)
      → s.render_at ≡ copies
      → length s.render_screens ≡ count
      → Step count s (record s { render_at = renders; new_frame = false })
  frame_rendered :
      (s : Threads)
      → s.render_at ≡ renders
      → Step count s
          (record s { render_at = waits_frame; shown = s.shown ++ (s.render_screens ∷ []) })

pub data Reach (count : ℕ) : Threads → Type 0 where
  here : Reach count (threads_start count)
  next : {s t : Threads} → Reach count s → Step count s t → Reach count t
