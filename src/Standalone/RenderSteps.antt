-- ===== src/Standalone/RenderSteps.antt =====
-- The steps of `renderLoop` keep the threads in step.
use matrixserver.Common.{
  ℕ, zero, suc, ◌+◌, ◌≡◌, ◌≢◌, refl, sym, ap, ◌∙◌, [], ◌∷◌, ◌++◌, some, Bool, true, false, length,
  replicate, arith, get_elem?, length-append,
}
use matrixserver.Standalone.Threads.{
  MainAt, turn, waits, draws, ended, publishes, waits_frame, copies, renders, Threads,
}
use matrixserver.Standalone.Sync.{frames, pending, unshown, Sync}

pub step_found :
    (count n : ℕ) (s : Threads)
    → s.render_at ≡ waits_frame
    → s.new_frame ≡ true
    → Sync count n s
    → Sync count n (record s { render_at = copies; render_screens = [] })
unfolding unshown
step_found count n s e f i = record {
  shown = i.shown;
  balance = ground (arith, i.balance, e);
  calm = i.calm;
  quiet_draw = i.quiet_draw;
  quiet_publish = i.quiet_publish;
  held = λ w. f;
  copied = λ w. refl;
  taken = λ w. absurd (ground (arith, w));
}

get_replicate : (k i d c : ℕ) → get_elem? (replicate k d) i ≡ some c → c ≡ d
get_replicate zero i d c e = absurd (ground (arith, e))
get_replicate (suc k) zero d c e = ground (arith, e)
get_replicate (suc k) (suc i) d c e = get_replicate k i d c e

replicate_more : (k d : ℕ) → replicate k d ++ (d ∷ []) ≡ replicate (suc k) d
replicate_more zero d = refl
replicate_more (suc k) d = ap (λ xs. d ∷ xs) (replicate_more k d)

-- While the renderer copies, the main thread does not draw.
pub copies-calm :
    (count n : ℕ) (s : Threads)
    → s.render_at ≡ copies
    → Sync count n s
    → s.screens ≡ replicate count s.drawn
copies-calm count n s e i = i.calm (λ w. ground (arith, i.held e, i.quiet_draw w))

pub step_copied :
    (count n : ℕ) (s : Threads) (content : ℕ)
    → s.render_at ≡ copies
    → get_elem? s.screens (length s.render_screens) ≡ some content
    → Sync count n s
    → Sync count n (record s { render_screens = s.render_screens ++ (content ∷ []) })
step_copied count n s content e g i =
    let k = length s.render_screens in
    let whole = copies-calm count n s e i in
    let same : content ≡ s.drawn =
      get_replicate count k s.drawn content (ap (λ xs. get_elem? xs k) (sym whole) ∙ g) in
    let longer : length (s.render_screens ++ (content ∷ [])) ≡ suc k =
      length-append s.render_screens (content ∷ []) ∙ omega arith in
    record {
      shown = i.shown;
      balance = i.balance;
      calm = i.calm;
      quiet_draw = i.quiet_draw;
      quiet_publish = i.quiet_publish;
      held = i.held;
      copied = λ w.
          ap (λ xs. xs ++ (content ∷ [])) (i.copied e)
          ∙ ap (λ c. replicate k s.drawn ++ (c ∷ [])) same
          ∙ replicate_more k s.drawn
          ∙ ap (λ m. replicate m s.drawn) (sym longer);
      taken = λ w. absurd (ground (arith, w, e));
    }

pub pending-true : (m : MainAt) → pending m true ≡ 1
unfolding pending
pending-true turn = refl
pending-true waits = refl
pending-true draws = refl
pending-true ended = refl
pending-true (publishes b) = refl

pub pending-false : (m : MainAt) → ((b : Bool) → m ≢ publishes b) → pending m false ≡ 0
unfolding pending
pending-false turn h = refl
pending-false waits h = refl
pending-false draws h = refl
pending-false ended h = refl
pending-false (publishes b) h = absurd (h b refl)

pub step_taken :
    (count n : ℕ) (s : Threads)
    → s.render_at ≡ copies
    → length s.render_screens ≡ count
    → Sync count n s
    → Sync count n (record s { render_at = renders; new_frame = false })
unfolding unshown
step_taken count n s e l i =
    let up = i.held e in
    let none_left = pending-false s.main_at (λ b w. ground (arith, up, i.quiet_publish b w)) in
    let one_there : n + unshown copies + pending s.main_at true ≡ s.drawn =
      ap (λ r. n + unshown r + pending s.main_at true) (sym e)
      ∙ ap (λ f. n + unshown s.render_at + pending s.main_at f) (sym up)
      ∙ i.balance in
    let number : s.drawn ≡ suc n = omega (arith, one_there, pending-true s.main_at) in
    record {
      shown = i.shown;
      balance = omega (arith, none_left, number);
      calm = i.calm;
      quiet_draw = λ w. refl;
      quiet_publish = λ b w. refl;
      held = λ w. absurd (ground (arith, w));
      copied = λ w. absurd (ground (arith, w));
      taken = λ w. i.copied e ∙ ap (λ m. replicate m s.drawn) l ∙ ap (replicate count) number;
    }

pub step_rendered :
    (count n : ℕ) (s : Threads)
    → s.render_at ≡ renders
    → Sync count n s
    → Sync count
        (suc n)
        (record s { render_at = waits_frame; shown = s.shown ++ (s.render_screens ∷ []) })
unfolding unshown frames
step_rendered count n s e i = record {
  shown = rw (i.shown, i.taken e) refl;
  balance = ground (arith, i.balance, e);
  calm = i.calm;
  quiet_draw = i.quiet_draw;
  quiet_publish = i.quiet_publish;
  held = λ w. absurd (ground (arith, w));
  copied = λ w. absurd (ground (arith, w));
  taken = λ w. absurd (ground (arith, w));
}
