-- ===== src/Server/History.antt =====
-- The discipline over ticks and over whole histories.
use matrixserver.Common.{
  ◌≡◌, ◌≢◌, sym, ◌∙◌, List, [], ◌∷◌, ◌++◌, some, none, Bool, true, if◌then◌else◌, arith, not, ◌&&◌,
  ◌⊎◌, inl, inr, Bool-cases, Option-cases, subst,
}
use matrixserver.Common.Int.{ℤ, negsuc, ◌==ℤ◌, ==ℤ_iff}
use matrixserver.Server.Apps.{Server, App, Effect, back, remove_if, resume_top_app}
use matrixserver.Server.Stack.{Told, after_effects, ids, Differ, Distinct, back-remove_if}
use matrixserver.Server.Discipline.{Differ-remove_ids, Good, remove_top-Good, keep_top-Good}
use matrixserver.Server.Effects.{after-append}
use matrixserver.Server.Runs.{GoodAfter, back_nonempty}
use matrixserver.Server.Tick.{
  World, tick, kill_current, manage_default, remove_dead_apps, top_app_id,
}
use matrixserver.Server.Apps.{clear_button_presses}

top_differs : (l : List App) (t : App) (i : ℤ) → back l ≡ some t → Differ i (ids l) → t.app_id ≢ i
unfolding back
top_differs [] t i e d = absurd (ground arith)
top_differs (a ∷ []) t i e d = ground (arith, d.0)
top_differs (a ∷ b ∷ l) t i e d = top_differs (b ∷ l) t i e d.1

differs_top :
    (a : App) (l : List App) (t : App)
    → back l ≡ some t
    → Differ a.app_id (ids l)
    → a.app_id ≢ t.app_id
differs_top a l t e d q = top_differs l t a.app_id e d (sym q)

back_cases :
    (a : App) (xs : List App) (u : App) → back (a ∷ xs) ≡ some u → (a ≡ u) ⊎ (back xs ≡ some u)
unfolding back
back_cases a [] u r = inl (ground arith)
back_cases a (x ∷ xs) u r = inr r

removed_differs :
    (p : App → Bool) (apps : List App) (t u : App)
    → Distinct (ids apps)
    → back apps ≡ some t
    → p t ≡ true
    → back (remove_if p apps) ≡ some u
    → u.app_id ≢ t.app_id
unfolding back remove_if
removed_differs p [] t u d e h r = absurd (ground arith)
removed_differs p (a ∷ []) t u d e h r =
    let same : a ≡ t = ground arith in let gone : p a ≡ true = rw same h in ground arith
removed_differs p (a ∷ b ∷ l) t u d e h r = elim (Bool-cases (p a)) [
  | inl out ↦ removed_differs p (b ∷ l) t u d.1 e h (rw out at r)
  | inr kept ↦ elim (back_cases a (remove_if p (b ∷ l)) u (rw kept at r)) [
    | inl same ↦ subst (λ x. x.app_id ≢ t.app_id) same (differs_top a (b ∷ l) t e d.0)
    | inr more ↦ removed_differs p (b ∷ l) t u d.1 e h more
  ]
]

-- The test of `tick` for a new top application.
abbrev resumes : List App → List App → List Effect
resumes xs ys =
    if not (top_app_id xs ==ℤ top_app_id ys) && not (top_app_id ys ==ℤ negsuc 0)
    then resume_top_app ys
    else []

resumes_new :
    (xs ys : List App) (t u : App)
    → back xs ≡ some t
    → back ys ≡ some u
    → u.app_id ≢ t.app_id
    → u.app_id ≢ negsuc 0
    → resumes xs ys ≡ resume_top_app ys
unfolding top_app_id
resumes_new xs ys t u e f n r =
    ground (arith, ==ℤ_iff t.app_id u.app_id, ==ℤ_iff u.app_id (negsuc 0))

resumes-none : (xs ys : List App) → back ys ≡ none → resumes xs ys ≡ resume_top_app ys
unfolding top_app_id resume_top_app
resumes-none xs ys e = ground arith

resumes_same :
    (xs ys : List App) (t : App) → back xs ≡ some t → back ys ≡ some t → resumes xs ys ≡ []
unfolding top_app_id
resumes_same xs ys t e f = ground (arith, ==ℤ_iff t.app_id t.app_id)

-- Where the top application is removed, the next one is resumed.
resumes_removed :
    (told : Told) (p : App → Bool) (apps : List App) (t : App)
    → Good told apps
    → back apps ≡ some t
    → p t ≡ true
    → resumes apps (remove_if p apps) ≡ resume_top_app (remove_if p apps)
resumes_removed told p apps t g e h = elim (Option-cases (back (remove_if p apps))) [
  | inl n ↦ resumes-none apps (remove_if p apps) n
  | inr (u, r) ↦
      resumes_new apps (remove_if p apps) t u e r (removed_differs p apps t u g.own_id e h r) (
        top_differs (remove_if p apps) u (negsuc 0) r
          (Differ-remove_ids p apps (negsuc 0) g.real_id))
]

dead_list :
    (told : Told) (p : App → Bool) (apps : List App)
    → Good told apps
    → Good (after_effects told (resumes apps (remove_if p apps))) (remove_if p apps)
dead_list told p [] g =
    unfold back remove_if after_effects top_app_id in
    (record { own_connection = tt; own_id = tt; real_id = tt; disciplined = tt })
dead_list told p (a ∷ l) g =
    let (t, e) = back_nonempty a l in
    elim (Bool-cases (p t)) [
      | inl h ↦ rw (resumes_removed told p (a ∷ l) t g e h) (remove_top-Good told p (a ∷ l) t g e h)
      | inr h ↦
          rw (resumes_same (a ∷ l) (remove_if p (a ∷ l)) t e (back-remove_if p (a ∷ l) t e h))
            (unfold after_effects in (keep_top-Good told p (a ∷ l) t g e h))
    ]

manage_default_apps : (w : World) (s : Server) → (manage_default w s).0.apps ≡ s.apps
unfolding manage_default
manage_default_apps w s = ground arith

manage_default_silent :
    (w : World) (s : Server) (told : Told) → after_effects told (manage_default w s).1 ≡ told
unfolding manage_default after_effects
manage_default_silent w s told = ground arith

kill_current_silent :
    (w : World) (s : Server) (told : Told) → after_effects told (kill_current w s) ≡ told
unfolding kill_current after_effects
kill_current_silent w s told = ground arith

-- Every tick keeps the discipline: whichever connections are dead, and whatever the button, the
-- processes and `fork` do.
pub tick-Good :
    (told : Told) (w : World) (s : Server) → Good told s.apps → GoodAfter told (tick w s)
unfolding tick
tick-Good told w s g =
    let started = (manage_default w s).1 in
    let s1 = (manage_default w s).0 in
    let resumed = (remove_dead_apps w s1).1 in
    let g1 : Good told s1.apps = rw (manage_default_apps w s) g in
    let removed : Good (after_effects told resumed) (remove_dead_apps w s1).0.apps =
      unfold remove_dead_apps in (dead_list told (λ a. w.is_dead a.connection) s1.apps g1) in
    let same : after_effects told
          (kill_current w s ++ (clear_button_presses ∷ (started ++ resumed)))
        ≡ after_effects told resumed =
      after-append told (kill_current w s) (clear_button_presses ∷ (started ++ resumed))
      ∙ (rw (kill_current_silent w s told) (
          unfold after_effects in
          (after-append told started resumed ∙ rw (manage_default_silent w s told)))) in
    rw same removed
