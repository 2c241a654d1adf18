-- ===== src/Standalone/Tests.antt =====
-- Runs of the threads of a standalone application at concrete inputs.
use matrixserver.Common.{ℕ, ◌+◌, ◌≤◌, ◌≡◌, refl, [], ◌∷◌, true, replicate}
use matrixserver.Standalone.Threads.{
  Threads, threads_start, Reach, here, next, turn_taken, frame_free, drawing, loop_ends,
  frame_published, frame_found, copies,
}
use matrixserver.Standalone.Sync.{frames}
use matrixserver.Standalone.Frames.{Reach-frames}

-- One frame is drawn and copied, with one screen.
abbrev copying : Threads
copying = record (threads_start 1) {
  new_frame = true;
  render_at = copies;
  screens = 1 ∷ [];
  drawn = 1;
}

copying_reached : Reach 1 copying
copying_reached =
    next
      (next
        (next
          (next (next (next here (turn_taken _ refl refl)) (frame_free _ refl refl))
            (drawing _ (9 ∷ []) refl))
          (loop_ends _ true refl))
        (frame_published _ true refl))
      (frame_found _ refl refl)

Reach-frames_example :
    (n : ℕ) × (copying.shown ≡ frames 1 n)
    × (n ≤ copying.drawn)
    × (copying.drawn ≤ n + 2)
    × (copying.render_at ≡ copies → copying.screens ≡ replicate 1 copying.drawn)
Reach-frames_example = Reach-frames 1 copying copying_reached
