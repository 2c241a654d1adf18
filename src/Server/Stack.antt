-- ===== src/Server/Stack.antt =====
-- The discipline of the stack: exactly the top application is not told to pause.
use matrixserver.Common.{
  ℕ, ◌≡◌, ◌≢◌, refl, ◌∙◌, List, [], ◌∷◌, ◌++◌, Option, some, none, Bool, true, false, if◌then◌else◌,
  arith, ◌==◌, inl, inr, Bool-cases,
}
use matrixserver.Common.Sequences.{All}
use matrixserver.Common.Int.{ℤ}
use matrixserver.Protocol.{MessageType, app_pause, app_resume}
use matrixserver.Server.Apps.{App, Effect, send_msg, back, remove_if, resume_top_app}
use matrixserver.Server.Requests.{pause_top_app}

-- What a connection was last told: to pause or to resume.
pub data Order : Type 0 where
  to_pause to_resume : Order

abbrev pub Told : Type 0
Told = ℕ → Option Order

abbrev pub update : Told → ℕ → Order → Told
update told c o d = if c == d then some o else told d

abbrev pub order_of : MessageType → Option Order
order_of app_pause = some to_pause
order_of app_resume = some to_resume
order_of _ = none

abbrev pub after_effect : Told → Effect → Told
after_effect told (send_msg c m) = elim (order_of m.message_type) [
  | none ↦ told
  | some o ↦ update told c o
]
after_effect told e = told

-- A connection's last order after the effects of a handler.
unfoldable pub after_effects : Told → List Effect → Told
after_effects told [] = told
after_effects told (e ∷ es) = after_effects (after_effect told e) es

abbrev pub conns : List App → List ℕ
conns [] = []
conns (a ∷ l) = a.connection ∷ conns l

abbrev pub ids : List App → List ℤ
ids [] = []
ids (a ∷ l) = a.app_id ∷ ids l

-- Every connection below the last was last told to pause, and the last one was not.
abbrev pub Disciplined : Told → List ℕ → Type 0
Disciplined told [] = Unit
Disciplined told (c ∷ []) = told c ≢ some to_pause
Disciplined told (c ∷ d ∷ rest) = (told c ≡ some to_pause) × Disciplined told (d ∷ rest)

abbrev pub Differ {ℓ} : {A : Type ℓ} → A → List A → Type ℓ
Differ x ys = All (λ y. y ≢ x) ys

abbrev pub Distinct {ℓ} : {A : Type ℓ} → List A → Type ℓ
Distinct [] = Unit
Distinct (x ∷ xs) = Differ x xs × Distinct xs

-- Pushing an application.
pause_keeps :
    (told : Told) (apps : List App) (c : ℕ)
    → told c ≡ some to_pause
    → after_effects told (pause_top_app apps) c ≡ some to_pause
unfolding after_effects pause_top_app
pause_keeps told [] c h = h
pause_keeps told (a ∷ []) c h = ground arith
pause_keeps told (a ∷ b ∷ l) c h = pause_keeps told (b ∷ l) c h

pub push-Disciplined :
    (told : Told) (apps : List App) (c : ℕ)
    → Disciplined told (conns apps)
    → Differ c (conns apps)
    → told c ≢ some to_pause
    → Disciplined (after_effects told (pause_top_app apps)) (conns apps ++ (c ∷ []))
unfolding after_effects pause_top_app
push-Disciplined told [] c d n h = h
push-Disciplined told (a ∷ []) c d n h = (ground arith, ground arith)
push-Disciplined told (a ∷ b ∷ []) c d n h =
    (pause_keeps told (b ∷ []) a.connection d.0, push-Disciplined told (b ∷ []) c d.1 n.1 h)
push-Disciplined told (a ∷ b ∷ e ∷ l) c d n h =
    (pause_keeps told (b ∷ e ∷ l) a.connection d.0, push-Disciplined told (b ∷ e ∷ l) c d.1 n.1 h)

-- Removing applications.
resume_elsewhere :
    (told : Told) (apps : List App) (c : ℕ)
    → Differ c (conns apps)
    → after_effects told (resume_top_app apps) c ≡ told c
unfolding after_effects resume_top_app
resume_elsewhere told [] c n = refl
resume_elsewhere told (a ∷ []) c n = ground arith
resume_elsewhere told (a ∷ b ∷ l) c n = resume_elsewhere told (b ∷ l) c n.1

abbrev pub Paused : Told → List ℕ → Type 0
Paused told cs = All (λ c. told c ≡ some to_pause) cs

pub resume-Disciplined :
    (told : Told) (apps : List App)
    → Paused told (conns apps)
    → Distinct (conns apps)
    → Disciplined (after_effects told (resume_top_app apps)) (conns apps)
unfolding after_effects resume_top_app
resume-Disciplined told [] p d = tt
resume-Disciplined told (a ∷ []) p d = ground arith
resume-Disciplined told (a ∷ b ∷ l) p d =
    (resume_elsewhere told (b ∷ l) a.connection d.0 ∙ p.0, resume-Disciplined told (b ∷ l) p.1 d.1)

pub remove_top-Paused :
    (told : Told) (p : App → Bool) (apps : List App) (t : App)
    → Disciplined told (conns apps)
    → back apps ≡ some t
    → p t ≡ true
    → Paused told (conns (remove_if p apps))
unfolding remove_if back
remove_top-Paused told p [] t d e h = tt
remove_top-Paused told p (a ∷ []) t d e h =
    let same : a ≡ t = ground arith in let gone : p a ≡ true = rw same h in rw gone tt
remove_top-Paused told p (a ∷ b ∷ l) t d e h = elim (Bool-cases (p a)) [
  | inl out ↦ rw out (remove_top-Paused told p (b ∷ l) t d.1 e h)
  | inr kept ↦ rw kept (d.0, remove_top-Paused told p (b ∷ l) t d.1 e h)
]

pub back-remove_if :
    (p : App → Bool) (apps : List App) (t : App)
    → back apps ≡ some t
    → p t ≡ false
    → back (remove_if p apps) ≡ some t
unfolding remove_if back
back-remove_if p [] t e h = e
back-remove_if p (a ∷ []) t e h =
    let same : a ≡ t = ground arith in let kept : p a ≡ false = rw same h in rw kept e
back-remove_if p (a ∷ b ∷ l) t e h = elim (Bool-cases (p a)) [
  | inl out ↦ rw out (back-remove_if p (b ∷ l) t e h)
  | inr kept ↦ rw kept (back-cons a (remove_if p (b ∷ l)) t (back-remove_if p (b ∷ l) t e h))
]
  where
    back-cons : (x : App) (xs : List App) (u : App) → back xs ≡ some u → back (x ∷ xs) ≡ some u
    back-cons x [] u q = absurd (ground arith)
    back-cons x (y ∷ ys) u q = q

pub keep_top-Disciplined :
    (told : Told) (p : App → Bool) (apps : List App) (t : App)
    → Disciplined told (conns apps)
    → back apps ≡ some t
    → p t ≡ false
    → Disciplined told (conns (remove_if p apps))
unfolding remove_if back
keep_top-Disciplined told p [] t d e h = tt
keep_top-Disciplined told p (a ∷ []) t d e h =
    let same : a ≡ t = ground arith in let kept : p a ≡ false = rw same h in rw kept d
keep_top-Disciplined told p (a ∷ b ∷ l) t d e h = elim (Bool-cases (p a)) [
  | inl out ↦ rw out (keep_top-Disciplined told p (b ∷ l) t d.1 e h)
  | inr kept ↦ rw kept (
      cons_paused (remove_if p (b ∷ l)) (back-remove_if p (b ∷ l) t e h)
        (keep_top-Disciplined told p (b ∷ l) t d.1 e h))
]
  where
    cons_paused :
        (xs : List App)
        → back xs ≡ some t
        → Disciplined told (conns xs)
        → Disciplined told (a.connection ∷ conns xs)
    cons_paused [] q r = absurd (ground arith)
    cons_paused (x ∷ xs) q r = (d.0, r)
