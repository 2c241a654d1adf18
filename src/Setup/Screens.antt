-- ===== src/Setup/Screens.antt =====
-- server/ServerSetup.cpp: the warnings about a configuration, and the screens made from it.
use matrixserver.Common.{
  leb, ◌*◌, Bool, true, false, List, [], ◌∷◌, ◌++◌, Option, some, none, ◌&&◌, ◌||◌, not,
  if◌then◌else◌,
}
use matrixserver.Common.Int.{ℤ, pos, negsuc, ◌==ℤ◌, ltb_ℤ}
use matrixserver.Protocol
use matrixserver.Protocol.{ScreenInfo, ScreenOrientation, ScreenRotation, ServerConfig}
use matrixserver.Graphics.Screen
use matrixserver.Graphics.Screen.{
  Screen, new_screen, max_int, set_rotation, set_offset_x, set_offset_y,
}

abbrev pub Offset : Type 0
Offset = ℤ × ℤ

pub data Warning : Type 0 where
  layout_missing : ℤ → ScreenOrientation → Warning
  offset_shared : Offset → List ℤ → Warning

abbrev pub offset_eq : Offset → Offset → Bool
offset_eq a b = (a.0 ==ℤ b.0) && (a.1 ==ℤ b.1)

-- The order of the pairs in a `std::map`.
abbrev pub offset_before : Offset → Offset → Bool
offset_before a b = ltb_ℤ a.0 b.0 || ((a.0 ==ℤ b.0) && ltb_ℤ a.1 b.1)

-- `offsetUsers`: the map from offsets to the identifiers of screens, in the order of its keys.
abbrev pub OffsetUsers : Type 0
OffsetUsers = List (Offset × List ℤ)

unfoldable pub has_offset : Offset → OffsetUsers → Bool
has_offset k [] = false
has_offset k ((o, ids) ∷ users) = offset_eq k o || has_offset k users

unfoldable pub push_id : Offset → ℤ → OffsetUsers → OffsetUsers
push_id k id [] = []
push_id k id ((o, ids) ∷ users) =
    let rest = push_id k id users in
    if offset_eq k o then (o, ids ++ (id ∷ [])) ∷ users else (o, ids) ∷ rest

unfoldable pub insert_offset : Offset → ℤ → OffsetUsers → OffsetUsers
insert_offset k id [] = (k, id ∷ []) ∷ []
insert_offset k id ((o, ids) ∷ users) =
    let rest = insert_offset k id users in
    if offset_before k o then (k, id ∷ []) ∷ (o, ids) ∷ users else (o, ids) ∷ rest

-- `offsetUsers[k].push_back(id)`
unfoldable pub add_user : Offset → ℤ → OffsetUsers → OffsetUsers
add_user k id users = if has_offset k users then push_id k id users else insert_offset k id users

abbrev pub offset_of : ScreenInfo → Offset
offset_of si = (si.offset_x, si.offset_y)

unfoldable pub add_users : List ScreenInfo → OffsetUsers → OffsetUsers
add_users [] users = users
add_users (si ∷ infos) users = add_users infos (add_user (offset_of si) si.screen_id users)

abbrev pub is_default : ScreenOrientation → Bool
is_default o = elim o [ Protocol.default_screen_orientation ↦ true | _ ↦ false ]

abbrev pub is_front : ScreenOrientation → Bool
is_front o = elim o [ Protocol.front ↦ true | _ ↦ false ]

abbrev pub is_rot0 : ScreenRotation → Bool
is_rot0 r = elim r [ Protocol.rot0 ↦ true | _ ↦ false ]

unfoldable pub any_orientation_set : List ScreenInfo → Bool
any_orientation_set [] = false
any_orientation_set (si ∷ infos) =
    not (is_default si.screen_orientation) || any_orientation_set infos

unfoldable pub layout_is_suspicious : ScreenInfo → Bool
layout_is_suspicious si =
    (si.offset_x ==ℤ pos 0)
    && (si.offset_y ==ℤ pos 0)
    && is_rot0 si.screen_rotation
    && (not (is_default si.screen_orientation) && not (is_front si.screen_orientation))

unfoldable pub layout_warnings : List ScreenInfo → List Warning
layout_warnings [] = []
layout_warnings (si ∷ infos) =
    let rest = layout_warnings infos in
    if layout_is_suspicious si
    then layout_missing si.screen_id si.screen_orientation ∷ rest
    else rest

abbrev pub is_shared : List ℤ → Bool
is_shared [] = false
is_shared (i ∷ []) = false
is_shared (i ∷ j ∷ ids) = true

unfoldable pub offset_warnings : OffsetUsers → List Warning
offset_warnings [] = []
offset_warnings ((o, ids) ∷ users) =
    let rest = offset_warnings users in if is_shared ids then offset_shared o ids ∷ rest else rest

unfoldable pub warn_if_config_suspicious : ServerConfig → List Warning
warn_if_config_suspicious config =
    (if any_orientation_set config.screen_info then layout_warnings config.screen_info else [])
    ++ offset_warnings (add_users config.screen_info [])

abbrev pub rotation_of : ScreenRotation → Screen.Rotation
rotation_of Protocol.rot0 = Screen.rot0
rotation_of Protocol.rot90 = Screen.rot90
rotation_of Protocol.rot180 = Screen.rot180
rotation_of Protocol.rot270 = Screen.rot270

-- `none`: the product of the sizes does not fit an `int`, or a size is negative. There is memory for
-- any other.
unfoldable pub new_sized_screen : ℤ → ℤ → ℤ → Option Screen
new_sized_screen (pos w) (pos h) id = if leb (w * h) max_int then some (new_screen w h id) else none
new_sized_screen (pos w) (negsuc h) id = none
new_sized_screen (negsuc w) h id = none

unfoldable pub screen_from : ScreenInfo → Option Screen
screen_from si = elim (new_sized_screen si.width si.height si.screen_id) [
  | none ↦ none
  | some s ↦ some (
      set_rotation (set_offset_y (set_offset_x s si.offset_x) si.offset_y)
        (rotation_of si.screen_rotation))
]

unfoldable pub screens_from : List ScreenInfo → Option (List Screen)
screens_from [] = some []
screens_from (si ∷ infos) = elim (screen_from si) [
  | none ↦ none
  | some s ↦ elim (screens_from infos) [ none ↦ none | some ss ↦ some (s ∷ ss) ]
]

-- The screens, and the warnings that are logged.
unfoldable pub create_screens_from_config : ServerConfig → List Warning × Option (List Screen)
create_screens_from_config config =
    (warn_if_config_suspicious config, screens_from config.screen_info)
