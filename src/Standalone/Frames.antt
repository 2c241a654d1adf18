-- ===== src/Standalone/Frames.antt =====
-- Every frame is shown once, whole and in order.
use matrixserver.Common.{ℕ, suc, ◌+◌, ◌≤◌, ◌≡◌, refl, Bool, replicate, arith}
use matrixserver.Standalone.Threads.{
  MainAt, turn, waits, draws, ended, publishes, RenderAt, waits_frame, copies, renders, Threads,
  threads_start, Step, state_set, turn_taken, frame_free, drawing, loop_ends, frame_published,
  frame_found, screen_copied, frame_taken, frame_rendered, Reach, here, next,
}
use matrixserver.Standalone.Sync.{frames, pending, unshown, Sync}
use matrixserver.Standalone.MainSteps.{
  step_state_set, step_turn, step_free, step_drawing, step_loop_ends, step_published,
}
use matrixserver.Standalone.RenderSteps.{
  step_found, step_copied, step_taken, step_rendered, copies-calm,
}

Step-Sync :
    (count n : ℕ) {s t : Threads} → Step count s t → Sync count n s → (m : ℕ) × Sync count m t
Step-Sync count n (state_set s a) i = (n, step_state_set count n s a i)
Step-Sync count n (turn_taken s e a) i = (n, step_turn count n s e i)
Step-Sync count n (frame_free s e f) i = (n, step_free count n s e f i)
Step-Sync count n (drawing s screens e) i = (n, step_drawing count n s screens e i)
Step-Sync count n (loop_ends s r e) i = (n, step_loop_ends count n s r e i)
Step-Sync count n (frame_published s r e) i = (n, step_published count n s r e i)
Step-Sync count n (frame_found s e f) i = (n, step_found count n s e f i)
Step-Sync count n (screen_copied s c e g) i = (n, step_copied count n s c e g i)
Step-Sync count n (frame_taken s e l) i = (n, step_taken count n s e l i)
Step-Sync count n (frame_rendered s e) i = (suc n, step_rendered count n s e i)

threads_start-Sync : (count : ℕ) → Sync count 0 (threads_start count)
unfolding frames unshown pending
threads_start-Sync count = record {
  shown = refl;
  balance = refl;
  calm = λ w. refl;
  quiet_draw = λ w. refl;
  quiet_publish = λ b w. refl;
  held = λ w. absurd (ground (arith, w));
  copied = λ w. absurd (ground (arith, w));
  taken = λ w. absurd (ground (arith, w));
}

Reach-Sync : (count : ℕ) {s : Threads} → Reach count s → (n : ℕ) × Sync count n s
Reach-Sync count here = (0, threads_start-Sync count)
Reach-Sync count (next r st) = let (n, i) = Reach-Sync count r in Step-Sync count n st i

unshown_bound : (r : RenderAt) → unshown r ≤ 1
unfolding unshown
unshown_bound waits_frame = omega arith
unshown_bound copies = omega arith
unshown_bound renders = omega arith

pending_bound : (m : MainAt) (f : Bool) → pending m f ≤ 1
unfolding pending
pending_bound turn f = ground arith
pending_bound waits f = ground arith
pending_bound draws f = ground arith
pending_bound ended f = ground arith
pending_bound (publishes b) f = omega arith

-- In every state that the two threads reach, in any interleaving: the frames that were shown are the
-- first `n` that `loop()` drew, in order, each once and whole on all screens, at most two more are
-- drawn, and while the renderer copies the screens they hold the last frame that was drawn.
pub Reach-frames :
    (count : ℕ) (s : Threads)
    → Reach count s
    → (n : ℕ) × (s.shown ≡ frames count n)
      × (n ≤ s.drawn)
      × (s.drawn ≤ n + 2)
      × (s.render_at ≡ copies → s.screens ≡ replicate count s.drawn)
Reach-frames count s r =
    let (n, i) = Reach-Sync count r in
    (
      n,
      i.shown,
      omega (arith, i.balance),
      omega (arith, i.balance, unshown_bound s.render_at, pending_bound s.main_at s.new_frame),
      λ e. copies-calm count n s e i,
    )
