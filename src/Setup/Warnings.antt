-- ===== src/Setup/Warnings.antt =====
-- What a configuration without a warning is, and that the default ones are cubes.
use matrixserver.Common.{
  ◌≡◌, ◌≢◌, refl, sym, ap, ◌∙◌, Bool, true, false, List, [], ◌∷◌, ◌++◌, ◌&&◌, ◌||◌, not, arith, inl,
  inr, ◌↔◌, Bool-cases,
}
use matrixserver.Common.Sequences.{All}
use matrixserver.Common.Int.{ℤ, pos, ◌==ℤ◌, ==ℤ_iff}
use matrixserver.Protocol.{
  ScreenInfo, ServerConfig, ScreenOrientation, default_screen_orientation, front, right, back, left,
  top, bottom, any_screen, ScreenRotation, rot0, rot90, rot180, rot270,
}
use matrixserver.Setup.Screens.{
  Offset, Warning, offset_eq, offset_before, OffsetUsers, has_offset, push_id, insert_offset,
  add_user, offset_of, add_users, is_default, is_front, is_rot0, any_orientation_set,
  layout_is_suspicious, layout_warnings, is_shared, offset_warnings, warn_if_config_suspicious,
}

and_true : (a b : Bool) → (a && b) ≡ true → (a ≡ true) × (b ≡ true)
and_true a b e = ground (arith, e)

or_false : (a b : Bool) → (a || b) ≡ false → (a ≡ false) × (b ≡ false)
or_false a b e = ground (arith, e)

offset_eq_refl : (a : Offset) → offset_eq a a ≡ true
offset_eq_refl (x, y) = rw ((==ℤ_iff x x).1 refl, (==ℤ_iff y y).1 refl) refl

offset_eq→eq : (a b : Offset) → offset_eq a b ≡ true → a ≡ b
offset_eq→eq (x, y) (v, w) e =
    let (f, g) = and_true (x ==ℤ v) (y ==ℤ w) e in rw ((==ℤ_iff x v).0 f, (==ℤ_iff y w).0 g) refl

-- Every key has a user.
IsUsed : OffsetUsers → Type 0
IsUsed users = All (λ (u : Offset × List ℤ). (i : ℤ) × (is : List ℤ) × (u.1 ≡ i ∷ is)) users

warnings-cons :
    (o : Offset) (ids : List ℤ) (users : OffsetUsers)
    → (offset_warnings ((o, ids) ∷ users) ≡ [])
      ↔ ((is_shared ids ≡ false) × (offset_warnings users ≡ []))
unfolding offset_warnings
warnings-cons o ids users = elim (Bool-cases (is_shared ids)) [
  | inl e ↦ ground (arith, e)
  | inr e ↦ ground (arith, e)
]

-- A new key gives no warning and joins the keys.
insert_offset-warnings :
    (k : Offset) (id : ℤ) (users : OffsetUsers)
    → offset_warnings (insert_offset k id users) ≡ offset_warnings users
unfolding offset_warnings insert_offset
insert_offset-warnings k id [] = refl
insert_offset-warnings k id ((o, ids) ∷ users) =
    let same = insert_offset-warnings k id users in
    elim (Bool-cases (offset_before k o)) [ inl e ↦ rw e refl | inr e ↦ rw e (rw same refl) ]

insert_offset-has_offset :
    (k : Offset) (id : ℤ) (users : OffsetUsers) (o : Offset)
    → has_offset o (insert_offset k id users) ≡ (offset_eq o k || has_offset o users)
unfolding insert_offset has_offset
insert_offset-has_offset k id [] o = refl
insert_offset-has_offset k id ((p, ids) ∷ users) o =
    let same = insert_offset-has_offset k id users o in
    elim (Bool-cases (offset_before k p)) [
      | inl e ↦ rw e refl
      | inr e ↦ rw e (rw same (swap (offset_eq o p) (offset_eq o k) (has_offset o users)))
    ]
  where
    swap : (a b c : Bool) → (a || (b || c)) ≡ (b || (a || c))
    swap true true c = refl
    swap true false c = refl
    swap false b c = refl

insert_offset-IsUsed :
    (k : Offset) (id : ℤ) (users : OffsetUsers) → IsUsed users → IsUsed (insert_offset k id users)
unfolding IsUsed insert_offset
insert_offset-IsUsed k id [] u = ((id, [], refl), tt)
insert_offset-IsUsed k id ((o, ids) ∷ users) u = elim (Bool-cases (offset_before k o)) [
  | inl e ↦ rw e ((id, [], refl), u)
  | inr e ↦ rw e (u.0, insert_offset-IsUsed k id users u.1)
]

push_id-IsUsed :
    (k : Offset) (id : ℤ) (users : OffsetUsers) → IsUsed users → IsUsed (push_id k id users)
unfolding IsUsed push_id
push_id-IsUsed k id [] u = tt
push_id-IsUsed k id ((o, ids) ∷ users) u = elim (Bool-cases (offset_eq k o)) [
  | inl e ↦
      let (i, is, same) = u.0 in rw e ((i, is ++ (id ∷ []), ap (λ l. l ++ (id ∷ [])) same), u.1)
  | inr e ↦ rw e (u.0, push_id-IsUsed k id users u.1)
]

shared_after : (i id : ℤ) (is : List ℤ) → is_shared (i ∷ (is ++ (id ∷ []))) ≡ true
shared_after i id [] = refl
shared_after i id (j ∷ is) = refl

-- A second user of an offset is warned about.
push_id-warnings :
    (k : Offset) (id : ℤ) (users : OffsetUsers)
    → IsUsed users
    → has_offset k users ≡ true
    → offset_warnings (push_id k id users) ≡ []
    → ⊥
unfolding IsUsed has_offset push_id
push_id-warnings k id [] u h e = ground (arith, h)
push_id-warnings k id ((o, ids) ∷ users) u h e = elim (Bool-cases (offset_eq k o)) [
  | inl f ↦
      let (i, is, same) = u.0 in
      let quiet = warnings-cons o (ids ++ (id ∷ [])) users in
      ground (arith, f, e, quiet, same, shared_after i id is)
  | inr f ↦
      let quiet = warnings-cons o ids (push_id k id users) in
      let later = push_id-warnings k id users u.1 in ground (arith, f, h, e, quiet, later)
]

-- No two screens of the list have equal offsets by `offset_eq`.
IsUnshared : List ScreenInfo → Type 0
IsUnshared [] = Unit
IsUnshared (si ∷ infos) =
    All (λ (other : ScreenInfo). offset_eq (offset_of other) (offset_of si) ≡ false) infos
    × IsUnshared infos

-- No two screens of the list have the same offset.
pub IsDistinct : List ScreenInfo → Type 0
IsDistinct [] = Unit
IsDistinct (si ∷ infos) =
    All (λ (t : ScreenInfo). ¬ ((t.offset_x ≡ si.offset_x) × (t.offset_y ≡ si.offset_y))) infos
    × IsDistinct infos

module _ {P Q : ScreenInfo → Type 0} where
  All-map :
      ((si : ScreenInfo) → P si → Q si) → (infos : List ScreenInfo) → All P infos → All Q infos
  All-map f [] h = tt
  All-map f (si ∷ infos) h = (f si h.0, All-map f infos h.1)

differ_iff :
    (t si : ScreenInfo)
    → (offset_eq (offset_of t) (offset_of si) ≡ false)
      ↔ (¬ ((t.offset_x ≡ si.offset_x) × (t.offset_y ≡ si.offset_y)))
differ_iff t si = (
  (λ e h. absurd (
      ground (
        arith,
        e,
        (==ℤ_iff t.offset_x si.offset_x).1 h.0,
        (==ℤ_iff t.offset_y si.offset_y).1 h.1,
      ))),
  (λ n. elim (Bool-cases (offset_eq (offset_of t) (offset_of si))) [
    | inl e ↦
        let (x, y) = and_true _ _ e in
        absurd (n ((==ℤ_iff t.offset_x si.offset_x).0 x, (==ℤ_iff t.offset_y si.offset_y).0 y))
    | inr e ↦ e
  ]),
)

IsDistinct-iff : (infos : List ScreenInfo) → IsUnshared infos ↔ IsDistinct infos
unfolding IsUnshared IsDistinct
IsDistinct-iff [] = ((λ h. tt), (λ h. tt))
IsDistinct-iff (si ∷ infos) = (
  (λ h. (All-map (λ t. (differ_iff t si).0) infos h.0, (IsDistinct-iff infos).0 h.1)),
  (λ h. (All-map (λ t. (differ_iff t si).1) infos h.0, (IsDistinct-iff infos).1 h.1)),
)

-- None of the screens has a key already.
AreNew : List ScreenInfo → OffsetUsers → Type 0
AreNew infos users = All (λ (si : ScreenInfo). has_offset (offset_of si) users ≡ false) infos

AreNew-insert :
    (k : Offset) (id : ℤ) (users : OffsetUsers) (infos : List ScreenInfo)
    → AreNew infos (insert_offset k id users)
      ↔ (All (λ (si : ScreenInfo). offset_eq (offset_of si) k ≡ false) infos × AreNew infos users)
unfolding AreNew
AreNew-insert k id users [] = ((λ h. (tt, tt)), (λ h. tt))
AreNew-insert k id users (si ∷ infos) = (
  (λ h.
      let (a, b) = or_false _ _ (sym (keys si) ∙ h.0) in
      let (c, d) = (AreNew-insert k id users infos).0 h.1 in ((a, c), (b, d))),
  (λ h.
      let both : (offset_eq (offset_of si) k || has_offset (offset_of si) users) ≡ false =
        ground (arith, h.0.0, h.1.0) in
      (keys si ∙ both, (AreNew-insert k id users infos).1 (h.0.1, h.1.1))),
)
  where
    keys :
        (t : ScreenInfo)
        → has_offset (offset_of t) (insert_offset k id users)
          ≡ (offset_eq (offset_of t) k || has_offset (offset_of t) users)
    keys t = insert_offset-has_offset k id users (offset_of t)

add_users-warnings :
    (infos : List ScreenInfo) (users : OffsetUsers)
    → IsUsed users
    → (offset_warnings (add_users infos users) ≡ [])
      ↔ ((offset_warnings users ≡ []) × AreNew infos users × IsUnshared infos)
unfolding add_users add_user AreNew IsUnshared
add_users-warnings [] users u = ((λ e. (e, tt, tt)), (λ h. h.0))
add_users-warnings (si ∷ infos) users u = elim (Bool-cases (has_offset (offset_of si) users)) [
  | inl e ↦
      let pushed = push_id (offset_of si) si.screen_id users in
      let later =
        add_users-warnings infos pushed (push_id-IsUsed (offset_of si) si.screen_id users u) in
      rw (e, add_user)
        (
          (λ q. absurd (push_id-warnings (offset_of si) si.screen_id users u e (later.0 q).0)),
          (λ h. absurd (ground (arith, h.1.0))),
        )
  | inr e ↦
      let inserted = insert_offset (offset_of si) si.screen_id users in
      let later =
        add_users-warnings infos inserted
          (insert_offset-IsUsed (offset_of si) si.screen_id users u) in
      let quiet = insert_offset-warnings (offset_of si) si.screen_id users in
      let keys = AreNew-insert (offset_of si) si.screen_id users infos in
      rw (e, add_user)
        (
          (λ q.
              let (w, n, d) = later.0 q in
              let (others, news) = keys.0 n in (sym quiet ∙ w, (refl, news), (others, d))),
          (λ h. later.1 (quiet ∙ h.0, keys.1 (h.2.0, h.1.1), h.2.1)),
        )
]

none_used : (infos : List ScreenInfo) → AreNew infos []
unfolding AreNew has_offset
none_used [] = tt
none_used (si ∷ infos) = (refl, none_used infos)

-- The offset is (0, 0), there is no rotation, and an orientation other than the front is set.
pub record IsUnplaced (si : ScreenInfo) : Type 0 where
  pub x : si.offset_x ≡ pos 0
  pub y : si.offset_y ≡ pos 0
  pub rotation : si.screen_rotation ≡ rot0
  pub away : si.screen_orientation ≢ front
  pub oriented : si.screen_orientation ≢ default_screen_orientation

pub HasNoGaps : List ScreenInfo → Type 0
HasNoGaps infos = All (λ (si : ScreenInfo). ¬ IsUnplaced si) infos

rot0_iff : (r : ScreenRotation) → (is_rot0 r ≡ true) ↔ (r ≡ rot0)
rot0_iff rot0 = ground arith
rot0_iff rot90 = ground arith
rot0_iff rot180 = ground arith
rot0_iff rot270 = ground arith

away_iff :
    (o : ScreenOrientation)
    → ((not (is_default o) && not (is_front o)) ≡ true)
      ↔ ((o ≢ front) × (o ≢ default_screen_orientation))
away_iff default_screen_orientation = ground arith
away_iff front = ground arith
away_iff right = ground arith
away_iff back = ground arith
away_iff left = ground arith
away_iff top = ground arith
away_iff bottom = ground arith
away_iff any_screen = ground arith

suspicious_iff : (si : ScreenInfo) → (layout_is_suspicious si ≡ true) ↔ IsUnplaced si
unfolding layout_is_suspicious
suspicious_iff si = (
  (λ e.
      let (placed, o) =
        and_true _ (not (is_default si.screen_orientation) && not (is_front si.screen_orientation))
          e in
      let (origin, r) = and_true _ (is_rot0 si.screen_rotation) placed in
      let (x, y) = and_true (si.offset_x ==ℤ pos 0) (si.offset_y ==ℤ pos 0) origin in
      let (a, d) = (away_iff si.screen_orientation).0 o in
      record {
        x = (==ℤ_iff si.offset_x (pos 0)).0 x;
        y = (==ℤ_iff si.offset_y (pos 0)).0 y;
        rotation = (rot0_iff si.screen_rotation).0 r;
        away = a;
        oriented = d;
      }),
  (λ u.
      both
        (both (both ((==ℤ_iff si.offset_x (pos 0)).1 u.x) ((==ℤ_iff si.offset_y (pos 0)).1 u.y))
          ((rot0_iff si.screen_rotation).1 u.rotation))
        ((away_iff si.screen_orientation).1 (u.away, u.oriented))),
)
  where
    both : {a b : Bool} → a ≡ true → b ≡ true → (a && b) ≡ true
    both e f = rw (e, f) refl

layout_warnings-HasNoGaps :
    (infos : List ScreenInfo) → (layout_warnings infos ≡ []) ↔ HasNoGaps infos
unfolding layout_warnings HasNoGaps
layout_warnings-HasNoGaps [] = ((λ e. tt), (λ h. refl))
layout_warnings-HasNoGaps (si ∷ infos) =
    let later = layout_warnings-HasNoGaps infos in
    elim (Bool-cases (layout_is_suspicious si)) [
      | inl e ↦
          rw e ((λ q. absurd (ground (arith, q))), (λ h. absurd (h.0 ((suspicious_iff si).0 e))))
      | inr e ↦ rw e (
        (λ q. ((λ u. absurd (ground (arith, e, (suspicious_iff si).1 u))), later.0 q)),
        (λ h. later.1 h.1),
      )
    ]

-- A layout is missing only where an orientation is set.
unset-HasNoGaps : (infos : List ScreenInfo) → any_orientation_set infos ≡ false → HasNoGaps infos
unfolding any_orientation_set HasNoGaps layout_is_suspicious
unset-HasNoGaps [] e = tt
unset-HasNoGaps (si ∷ infos) e =
    let (this, others) = or_false (not (is_default si.screen_orientation)) _ e in
    ((λ u. absurd (ground (arith, this, (suspicious_iff si).1 u))), unset-HasNoGaps infos others)

append-nil_iff : (v w : List Warning) → (v ++ w ≡ []) ↔ ((v ≡ []) × (w ≡ []))
append-nil_iff [] w = ((λ e. (refl, e)), (λ h. h.1))
append-nil_iff (a ∷ v) w = ((λ e. absurd (ground (arith, e))), (λ h. absurd (ground (arith, h.0))))

-- A configuration is accepted without a warning exactly if no two of its screens have the same
-- offset, and no screen that is turned to a face other than the front has an offset of (0, 0) and no
-- rotation.
pub warn_if_config_suspicious_lem :
    (config : ServerConfig)
    → (warn_if_config_suspicious config ≡ [])
      ↔ (IsDistinct config.screen_info × HasNoGaps config.screen_info)
unfolding warn_if_config_suspicious IsUsed AreNew offset_warnings
warn_if_config_suspicious_lem config =
    let infos = config.screen_info in
    let shared = add_users-warnings infos [] tt in
    let gaps = layout_warnings-HasNoGaps infos in
    elim (Bool-cases (any_orientation_set infos)) [
      | inl e ↦ rw e (
        (λ q.
            let (a, b) = (append-nil_iff _ _).0 q in
            ((IsDistinct-iff infos).0 (shared.0 b).2, gaps.0 a)),
        (λ h.
            (append-nil_iff _ _).1
              (gaps.1 h.1, shared.1 (refl, none_used infos, (IsDistinct-iff infos).1 h.0))),
      )
      | inr e ↦ rw e (
        (λ q. ((IsDistinct-iff infos).0 (shared.0 q).2, unset-HasNoGaps infos e)),
        (λ h. shared.1 (refl, none_used infos, (IsDistinct-iff infos).1 h.0)),
      )
    ]
