-- ===== src/Server/Discipline.antt =====
-- The stack's discipline is kept by every request and every tick.
use matrixserver.Common.{
  ℕ, ◌≡◌, ◌≢◌, refl, sym, ap, List, [], ◌∷◌, ◌++◌, some, Bool, true, false, arith,
}
use matrixserver.Common.Sequences.{All-append}
use matrixserver.Common.Int.{ℤ, negsuc}
use matrixserver.Protocol.{AppParamSchema}
use matrixserver.Server.Apps.{
  App, AppState, back, remove_if, resume_top_app, set_app_state, set_param_schema,
}
use matrixserver.Server.Requests.{pause_top_app}
use matrixserver.Server.Stack.{
  to_pause, Told, update, after_effects, conns, ids, Disciplined, Differ, Distinct,
  push-Disciplined, resume-Disciplined, remove_top-Paused, keep_top-Disciplined,
}

-- The applications have different connections and different ids, none of them -1, and the stack
-- is disciplined.
pub record Good (told : Told) (apps : List App) : Type 0 where
  pub own_connection : Distinct (conns apps)
  pub own_id : Distinct (ids apps)
  pub real_id : Differ (negsuc 0) (ids apps)
  pub disciplined : Disciplined told (conns apps)

-- Elements that a removal leaves.
Differ-remove_conns :
    (p : App → Bool) (apps : List App) (c : ℕ)
    → Differ c (conns apps)
    → Differ c (conns (remove_if p apps))
unfolding remove_if
Differ-remove_conns p [] c d = tt
Differ-remove_conns p (a ∷ l) c d = ground (arith, Differ-remove_conns p l c d.1)

pub Differ-remove_ids :
    (p : App → Bool) (apps : List App) (i : ℤ)
    → Differ i (ids apps)
    → Differ i (ids (remove_if p apps))
unfolding remove_if
Differ-remove_ids p [] i d = tt
Differ-remove_ids p (a ∷ l) i d = ground (arith, Differ-remove_ids p l i d.1)

Distinct-remove_conns :
    (p : App → Bool) (apps : List App) → Distinct (conns apps) → Distinct (conns (remove_if p apps))
unfolding remove_if
Distinct-remove_conns p [] d = tt
Distinct-remove_conns p (a ∷ l) d =
    ground (arith, Distinct-remove_conns p l d.1, Differ-remove_conns p l a.connection d.0)

Distinct-remove_ids :
    (p : App → Bool) (apps : List App) → Distinct (ids apps) → Distinct (ids (remove_if p apps))
unfolding remove_if
Distinct-remove_ids p [] d = tt
Distinct-remove_ids p (a ∷ l) d =
    ground (arith, Distinct-remove_ids p l d.1, Differ-remove_ids p l a.app_id d.0)

remove-Good :
    (told : Told) (p : App → Bool) (apps : List App) (told' : Told)
    → Good told apps
    → Disciplined told' (conns (remove_if p apps))
    → Good told' (remove_if p apps)
remove-Good told p apps told' g d = record {
  own_connection = Distinct-remove_conns p apps g.own_connection;
  own_id = Distinct-remove_ids p apps g.own_id;
  real_id = Differ-remove_ids p apps (negsuc 0) g.real_id;
  disciplined = d;
}

-- Removing applications, and resuming the new top one if the old one is gone.
pub remove_top-Good :
    (told : Told) (p : App → Bool) (apps : List App) (t : App)
    → Good told apps
    → back apps ≡ some t
    → p t ≡ true
    → Good (after_effects told (resume_top_app (remove_if p apps))) (remove_if p apps)
remove_top-Good told p apps t g e h =
    remove-Good told p apps (after_effects told (resume_top_app (remove_if p apps))) g (
      resume-Disciplined told (remove_if p apps) (remove_top-Paused told p apps t g.disciplined e h)
        (Distinct-remove_conns p apps g.own_connection))

pub keep_top-Good :
    (told : Told) (p : App → Bool) (apps : List App) (t : App)
    → Good told apps
    → back apps ≡ some t
    → p t ≡ false
    → Good told (remove_if p apps)
keep_top-Good told p apps t g e h =
    remove-Good told p apps told g (keep_top-Disciplined told p apps t g.disciplined e h)

-- Telling a connection other than the top application's to pause.
pub pause_below :
    (told : Told) (apps : List App) (c : ℕ)
    → ((t : App) → back apps ≡ some t → t.connection ≢ c)
    → Disciplined told (conns apps)
    → Disciplined (update told c to_pause) (conns apps)
unfolding back
pause_below told [] c n d = tt
pause_below told (a ∷ []) c n d = ground (arith, n a refl)
pause_below told (a ∷ b ∷ l) c n d = (ground arith, pause_below told (b ∷ l) c n d.1)

pub same_keys_state :
    (id : ℤ) (st : AppState) (apps : List App)
    → (conns (set_app_state id st apps) ≡ conns apps) × (ids (set_app_state id st apps) ≡ ids apps)
unfolding set_app_state
same_keys_state id st [] = (refl, refl)
same_keys_state id st (a ∷ l) = ground (arith, same_keys_state id st l)

pub same_keys_schema :
    (id : ℤ) (schema : AppParamSchema) (apps : List App)
    → (conns (set_param_schema id schema apps) ≡ conns apps)
      × (ids (set_param_schema id schema apps) ≡ ids apps)
unfolding set_param_schema
same_keys_schema id schema [] = (refl, refl)
same_keys_schema id schema (a ∷ l) = ground (arith, same_keys_schema id schema l)

pub keys-Good :
    (told : Told) (apps apps' : List App)
    → (conns apps' ≡ conns apps) × (ids apps' ≡ ids apps)
    → Good told apps
    → Good told apps'
keys-Good told apps apps' e g = record {
  own_connection = rw (e.0) g.own_connection;
  own_id = rw (e.1) g.own_id;
  real_id = rw (e.1) g.real_id;
  disciplined = rw (e.0) g.disciplined;
}

Distinct-push {ℓ} :
    {A : Type ℓ} (xs : List A) (x : A) → Distinct xs → Differ x xs → Distinct (xs ++ (x ∷ []))
Distinct-push [] x d n = (tt, tt)
Distinct-push (y ∷ ys) x d n =
    (All-append (λ z. z ≢ y) ys (x ∷ []) d.0 ((λ e. n.0 (sym e)), tt), Distinct-push ys x d.1 n.1)

conns-append : (xs ys : List App) → conns (xs ++ ys) ≡ conns xs ++ conns ys
conns-append [] ys = refl
conns-append (x ∷ xs) ys = ap (λ t. x.connection ∷ t) (conns-append xs ys)

ids-append : (xs ys : List App) → ids (xs ++ ys) ≡ ids xs ++ ids ys
ids-append [] ys = refl
ids-append (x ∷ xs) ys = ap (λ t. x.app_id ∷ t) (ids-append xs ys)

pub push-Good :
    (told : Told) (apps : List App) (n : App)
    → Good told apps
    → Differ n.connection (conns apps)
    → told n.connection ≢ some to_pause
    → Differ n.app_id (ids apps)
    → n.app_id ≢ negsuc 0
    → Good (after_effects told (pause_top_app apps)) (apps ++ (n ∷ []))
push-Good told apps n g new calm unused real = record {
  own_connection =
      rw (conns-append apps (n ∷ []))
        (Distinct-push (conns apps) n.connection g.own_connection new);
  own_id = rw (ids-append apps (n ∷ [])) (Distinct-push (ids apps) n.app_id g.own_id unused);
  real_id =
      rw (ids-append apps (n ∷ []))
        (All-append (λ i. i ≢ negsuc 0) (ids apps) (n.app_id ∷ []) g.real_id (real, tt));
  disciplined =
      rw (conns-append apps (n ∷ []))
        (push-Disciplined told apps n.connection g.disciplined new calm);
}
