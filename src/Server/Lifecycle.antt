-- ===== src/Server/Lifecycle.antt =====
-- How applications come and go: registration, removal, dead connections, the default application.
use matrixserver.Common.{
  zero, ◌<◌, ℕ, suc, ◌+◌, ◌≡◌, ◌≢◌, refl, List, [], ◌∷◌, ◌++◌, some, none, Bool, true, false,
  if◌then◌else◌, arith, inl, inr, Bool-cases,
}
use native.Mathlib.Nat.{zero-add}
use matrixserver.Common.Int.{ℤ, pos, negsuc, ◌==ℤ◌, ==ℤ_iff}
use matrixserver.Protocol.{Message}
use matrixserver.Server.Apps.{send_signal, Server, App, back, remove_if, new_app}
use matrixserver.Server.Requests.{handle_register, handle_kill}
use matrixserver.Server.Stack.{ids, Differ}
use matrixserver.Server.Tick.{
  remove_dead, wait_exit, stop_default_app, sigterm, sigkill, World, tick, manage_default,
  remove_dead_apps,
}
use matrixserver.Server.Apps.{get_app_by_id}

get-push_self :
    (apps : List App) (n : App)
    → Differ n.app_id (ids apps)
    → get_app_by_id n.app_id (apps ++ (n ∷ [])) ≡ some n
unfolding get_app_by_id
get-push_self [] n d = ground (arith, ==ℤ_iff n.app_id n.app_id)
get-push_self (a ∷ l) n d = ground (arith, ==ℤ_iff a.app_id n.app_id, d.0, get-push_self l n d.1)

get-push_other :
    (apps : List App) (n : App) (j : ℤ)
    → j ≢ n.app_id
    → get_app_by_id j (apps ++ (n ∷ [])) ≡ get_app_by_id j apps
unfolding get_app_by_id
get-push_other [] n j h = ground (arith, ==ℤ_iff n.app_id j)
get-push_other (a ∷ l) n j h = ground (arith, get-push_other l n j h)

back-push : (apps : List App) (n : App) → back (apps ++ (n ∷ [])) ≡ some n
unfolding back
back-push [] n = refl
back-push (a ∷ []) n = refl
back-push (a ∷ b ∷ l) n = back-push (b ∷ l) n

-- A registration with an unused id puts the new application on top, where it is found under its id;
-- every other id finds what it found before.
pub handle_register_lem :
    (rand : ℤ) (s : Server) (c : ℕ) (m : Message)
    → m.app_id ≡ pos 0
    → Differ rand (ids s.apps)
    → let apps' = (handle_register rand s c m).0.apps in
      (back apps' ≡ some (new_app rand c))
      × (get_app_by_id rand apps' ≡ some (new_app rand c))
      × ((j : ℤ) → j ≢ rand → get_app_by_id j apps' ≡ get_app_by_id j s.apps)
unfolding handle_register
handle_register_lem rand s c m zero_id unused =
    let asked : (m.app_id ==ℤ pos 0) ≡ true = (==ℤ_iff m.app_id (pos 0)).1 zero_id in
    rw asked (
      back-push s.apps (new_app rand c),
      unfold new_app in (get-push_self s.apps (new_app rand c) unused),
      λ j h. unfold new_app in (get-push_other s.apps (new_app rand c) j h),
    )

get-remove :
    (apps : List App) (id j : ℤ)
    → get_app_by_id j (remove_if (λ a. a.app_id ==ℤ id) apps)
      ≡ (if j ==ℤ id then none else get_app_by_id j apps)
unfolding get_app_by_id remove_if
get-remove [] id j = ground arith
get-remove (a ∷ l) id j =
    ground (arith, ==ℤ_iff a.app_id id, ==ℤ_iff a.app_id j, ==ℤ_iff j id, get-remove l id j)

-- After a kill no application has the id, and every other id finds what it found before.
pub handle_kill_lem :
    (s : Server) (m : Message) (j : ℤ)
    → get_app_by_id j (handle_kill s m).0.apps
      ≡ (if j ==ℤ m.app_id then none else get_app_by_id j s.apps)
unfolding handle_kill
handle_kill_lem s m j = get-remove s.apps m.app_id j

-- The second list is the first without its elements whose connection is dead: each that is alive is
-- kept, once and in its place.
pub data Survive {A : Type 0} (connection_of : A → ℕ) (dead : ℕ → Bool)
    : List A → List A → Type 0 where
  none_left : Survive connection_of dead [] []
  stays :
      (x : A) {xs ys : List A}
      → dead (connection_of x) ≡ false
      → Survive connection_of dead xs ys
      → Survive connection_of dead (x ∷ xs) (x ∷ ys)
  goes :
      (x : A) {xs ys : List A}
      → dead (connection_of x) ≡ true
      → Survive connection_of dead xs ys
      → Survive connection_of dead (x ∷ xs) ys

live_apps :
    (dead : ℕ → Bool) (apps : List App)
    → Survive (λ (a : App). a.connection) dead apps (remove_if (λ a. dead a.connection) apps)
unfolding remove_if
live_apps dead [] = none_left
live_apps dead (a ∷ l) = elim (Bool-cases (dead a.connection)) [
  | inl e ↦ rw e (goes a e (live_apps dead l))
  | inr e ↦ rw e (stays a e (live_apps dead l))
]

live_connections :
    (dead : ℕ → Bool) (cs : List ℕ) → Survive (λ (c : ℕ). c) dead cs (remove_dead dead cs)
unfolding remove_dead
live_connections dead [] = none_left
live_connections dead (c ∷ cs) = elim (Bool-cases (dead c)) [
  | inl e ↦ rw e (goes c e (live_connections dead cs))
  | inr e ↦ rw e (stays c e (live_connections dead cs))
]

manage_default_keeps :
    (w : World) (s : Server)
    → ((manage_default w s).0.apps ≡ s.apps) × ((manage_default w s).0.connections ≡ s.connections)
unfolding manage_default
manage_default_keeps w s = (ground arith, ground arith)

-- A tick takes away exactly the applications and the connections that are dead, wherever they stand;
-- every other one stays, once and in its order, and none is added.
pub tick_live :
    (w : World) (s : Server)
    → Survive (λ (a : App). a.connection) w.is_dead s.apps (tick w s).0.apps
      × Survive (λ (c : ℕ). c) w.is_dead s.connections (tick w s).0.connections
unfolding tick remove_dead_apps
tick_live w s =
    let (apps, connections) = manage_default_keeps w s in
    (
      rw apps (live_apps w.is_dead s.apps),
      rw connections (live_connections w.is_dead s.connections),
    )

wait_exit_none :
    (gone : ℕ → Bool) (n i : ℕ)
    → ((k : ℕ) → k < n → gone (i + k) ≡ false)
    → wait_exit gone n i ≡ false
unfolding wait_exit
wait_exit_none gone zero i h = refl
wait_exit_none gone (suc n) i h =
    let same : i + zero ≡ i = omega arith in
    let now : gone i ≡ false = rw same at (h zero (omega arith)) in
    let later =
      wait_exit_none gone n (i + 1) (λ k l. (rw (shift k) at (h (suc k) (omega arith)))) in
    ground arith
  where
    shift : (k : ℕ) → i + suc k ≡ i + 1 + k
    shift k = omega arith

wait_exit_some :
    (gone : ℕ → Bool) (n i k : ℕ) → k < n → gone (i + k) ≡ true → wait_exit gone n i ≡ true
unfolding wait_exit
wait_exit_some gone zero i k l h = absurd (omega arith)
wait_exit_some gone (suc n) i zero l h =
    let same : i + zero ≡ i = omega arith in let now : gone i ≡ true = rw same at h in ground arith
wait_exit_some gone (suc n) i (suc k) l h =
    let same : i + suc k ≡ i + 1 + k = omega arith in
    let later : wait_exit gone n (i + 1) ≡ true =
      wait_exit_some gone n (i + 1) k (omega arith) (rw same at h) in
    ground arith

stop_default_app_polled :
    (gone : ℕ → Bool) (s : Server) (n : ℕ) (b : Bool)
    → s.default_app_pid ≡ pos (suc n)
    → wait_exit gone 30 0 ≡ b
    → (stop_default_app gone s).1
      ≡ send_signal (pos (suc n)) sigterm
        ∷ (if b then [] else send_signal (pos (suc n)) sigkill ∷ [])
unfolding stop_default_app
stop_default_app_polled gone s n b e w = ground arith

-- Stopping a default application with a process id forgets the id. SIGTERM is always sent; SIGKILL
-- follows exactly if none of the 30 polls reports the process gone.
pub stop_default_app_lem :
    (gone : ℕ → Bool) (s : Server) (n : ℕ)
    → s.default_app_pid ≡ pos (suc n)
    → ((stop_default_app gone s).0.default_app_pid ≡ negsuc 0)
      × ((k : ℕ)
          → k < 30
          → gone k ≡ true
          → (stop_default_app gone s).1 ≡ send_signal (pos (suc n)) sigterm ∷ [])
      × (((k : ℕ) → k < 30 → gone k ≡ false)
          → (stop_default_app gone s).1
            ≡ send_signal (pos (suc n)) sigterm ∷ (send_signal (pos (suc n)) sigkill ∷ []))
stop_default_app_lem gone s n e = (
  unfold stop_default_app in (ground arith),
  λ k l h. stop_default_app_polled gone s n true e (wait_exit_some gone 30 0 k l (rw (zero-add) h)),
  λ none_gone.
      stop_default_app_polled gone s n false e
        (wait_exit_none gone 30 0 (λ k l. rw (zero-add) (none_gone k l))),
)
