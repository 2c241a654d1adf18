-- ===== src/Standalone/Sync.antt =====
-- How the two threads keep in step.
use matrixserver.Common.{
  ℕ, zero, suc, ◌+◌, ◌≡◌, ◌≢◌, List, [], ◌∷◌, ◌++◌, Bool, true, false, length, replicate,
  if◌then◌else◌,
}
use matrixserver.Standalone.Threads.{
  MainAt, turn, waits, draws, ended, publishes, RenderAt, waits_frame, copies, renders, Threads,
}

-- The first `n` frames, each the same on all screens.
unfoldable pub frames : ℕ → ℕ → List (List ℕ)
frames count zero = []
frames count (suc n) = frames count n ++ (replicate count (suc n) ∷ [])

-- The frames that were drawn and not yet taken by the renderer.
unfoldable pub pending : MainAt → Bool → ℕ
pending (publishes b) f = 1
pending turn f = if f then 1 else 0
pending waits f = if f then 1 else 0
pending draws f = if f then 1 else 0
pending ended f = if f then 1 else 0

-- The frames that were taken and not yet shown.
unfoldable pub unshown : RenderAt → ℕ
unshown waits_frame = 0
unshown copies = 0
unshown renders = 1

-- `n` frames have been shown.
pub record Sync (count : ℕ) (n : ℕ) (s : Threads) : Type 0 where
  pub shown : s.shown ≡ frames count n
  pub balance : n + unshown s.render_at + pending s.main_at s.new_frame ≡ s.drawn
  pub calm : s.main_at ≢ draws → s.screens ≡ replicate count s.drawn
  pub quiet_draw : s.main_at ≡ draws → s.new_frame ≡ false
  pub quiet_publish : (b : Bool) → s.main_at ≡ publishes b → s.new_frame ≡ false
  pub held : s.render_at ≡ copies → s.new_frame ≡ true
  pub copied : s.render_at ≡ copies → s.render_screens ≡ replicate (length s.render_screens) s.drawn
  pub taken : s.render_at ≡ renders → s.render_screens ≡ replicate count (suc n)
