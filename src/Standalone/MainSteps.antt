-- ===== src/Standalone/MainSteps.antt =====
-- The steps of `internalLoop` keep the threads in step.
use matrixserver.Common.{
  ℕ, suc, ◌+◌, ◌≡◌, ◌≢◌, refl, ◌∙◌, List, Bool, true, false, replicate, arith,
}
use matrixserver.Application.Life.{AppState}
use matrixserver.Standalone.Threads.{turn, waits, draws, publishes, Threads, next_turn}
use matrixserver.Standalone.Sync.{pending, unshown, Sync}

pub step_state_set :
    (count n : ℕ) (s : Threads) (a : AppState)
    → Sync count n s
    → Sync count n (record s { app_state = a })
step_state_set count n s a i = record {
  shown = i.shown;
  balance = i.balance;
  calm = i.calm;
  quiet_draw = i.quiet_draw;
  quiet_publish = i.quiet_publish;
  held = i.held;
  copied = i.copied;
  taken = i.taken;
}

pub step_turn :
    (count n : ℕ) (s : Threads)
    → s.main_at ≡ turn
    → Sync count n s
    → Sync count n (record s { main_at = waits })
unfolding pending
step_turn count n s e i = record {
  shown = i.shown;
  balance = ground (arith, i.balance, e);
  calm = λ w. i.calm (ground (arith, e));
  quiet_draw = λ w. absurd (ground (arith, w));
  quiet_publish = λ b w. absurd (ground (arith, w));
  held = i.held;
  copied = i.copied;
  taken = i.taken;
}

pub step_free :
    (count n : ℕ) (s : Threads)
    → s.main_at ≡ waits
    → s.new_frame ≡ false
    → Sync count n s
    → Sync count n (record s { main_at = draws })
unfolding pending
step_free count n s e f i = record {
  shown = i.shown;
  balance = ground (arith, i.balance, e, f);
  calm = λ w. absurd (w refl);
  quiet_draw = λ w. f;
  quiet_publish = λ b w. f;
  held = i.held;
  copied = i.copied;
  taken = i.taken;
}

pub step_drawing :
    (count n : ℕ) (s : Threads) (screens : List ℕ)
    → s.main_at ≡ draws
    → Sync count n s
    → Sync count n (record s { screens = screens })
step_drawing count n s screens e i = record {
  shown = i.shown;
  balance = i.balance;
  calm = λ w. absurd (w e);
  quiet_draw = i.quiet_draw;
  quiet_publish = i.quiet_publish;
  held = i.held;
  copied = i.copied;
  taken = i.taken;
}

pub step_loop_ends :
    (count n : ℕ) (s : Threads) (r : Bool)
    → s.main_at ≡ draws
    → Sync count n s
    → Sync count n (record s {
      main_at = publishes r;
      screens = replicate count (suc s.drawn);
      drawn = suc s.drawn;
    })
unfolding pending
step_loop_ends count n s r e i =
    let low = i.quiet_draw e in
    record {
      shown = i.shown;
      balance = ground (arith, i.balance, e, low);
      calm = λ w. refl;
      quiet_draw = λ w. low;
      quiet_publish = λ b w. low;
      held = i.held;
      copied = λ w. absurd (ground (arith, low, i.held w));
      taken = i.taken;
    }

pub step_published :
    (count n : ℕ) (s : Threads) (r : Bool)
    → s.main_at ≡ publishes r
    → Sync count n s
    → Sync count n (record s { main_at = next_turn r; new_frame = true })
unfolding pending
step_published count n s r e i = record {
  shown = i.shown;
  balance = pending_next r ∙ ground (arith, i.balance, e);
  calm = λ w. i.calm (ground (arith, e));
  quiet_draw = λ w. absurd (next_turn-ne r w);
  quiet_publish = λ b w. absurd (next_turn-ne_publishes r b w);
  held = λ w. refl;
  copied = i.copied;
  taken = i.taken;
}
  where
    pending_next :
        (r : Bool)
        → n + unshown s.render_at + pending (next_turn r) true ≡ n + unshown s.render_at + 1
    pending_next true = refl
    pending_next false = refl

    next_turn-ne : (r : Bool) → next_turn r ≢ draws
    next_turn-ne true = ground arith
    next_turn-ne false = ground arith

    next_turn-ne_publishes : (r b : Bool) → next_turn r ≢ publishes b
    next_turn-ne_publishes true b = ground arith
    next_turn-ne_publishes false b = ground arith
