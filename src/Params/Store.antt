-- ===== src/Params/Store.antt =====
-- The operations of `AnimationParams`. The mutex makes each one atomic. A record starts with
-- uninitialised numbers: `none` is a field that nothing has written.
use matrixserver.Common.{List, [], ◌∷◌, Option, some, none, Bool, false, if◌then◌else◌}
use matrixserver.Common.Int.{ℤ, pos}
use matrixserver.Protocol.{
  Text, Float32, text_eq, AppParamDef, AppParamSchema, AppParamUpdate, AppParamValues,
}
use matrixserver.Params.TextMap.{lookup, insert, modify}

pub record ParamRecord : Type 0 where
  pub def : AppParamDef
  pub float_val : Option Float32
  pub int_val : Option ℤ
  pub bool_val : Option Bool
  pub string_val : Text

abbrev pub Params : Type 0
Params = List (Text × ParamRecord)

-- "float", "int", "bool" and "enum".
abbrev pub float_type : Text
float_type = b'f' ∷ b'l' ∷ b'o' ∷ b'a' ∷ b't' ∷ []

abbrev pub int_type : Text
int_type = b'i' ∷ b'n' ∷ b't' ∷ []

abbrev pub bool_type : Text
bool_type = b'b' ∷ b'o' ∷ b'o' ∷ b'l' ∷ []

abbrev pub enum_type : Text
enum_type = b'e' ∷ b'n' ∷ b'u' ∷ b'm' ∷ []

-- 0.0f and 1.0f
abbrev pub float_zero : Float32
float_zero = 0

abbrev pub float_one : Float32
float_one = 0x3f80_0000

abbrev pub blank_def : Text → Text → Text → Text → AppParamDef
blank_def key label type group = record {
  key = key;
  label = label;
  type = type;
  min_val = float_zero;
  max_val = float_zero;
  step = float_zero;
  default_val = float_zero;
  enum_options = [];
  group = group;
}

abbrev pub blank_record : AppParamDef → ParamRecord
blank_record def = record {
  def = def;
  float_val = none;
  int_val = none;
  bool_val = none;
  string_val = [];
}

unfoldable pub register_float :
    Params → Text → Text → Float32 → Float32 → Float32 → Float32 → Text → Params
register_float ps key label lo hi def step group =
    insert key
      (record (blank_record (record (blank_def key label float_type group) {
        min_val = lo;
        max_val = hi;
        step = step;
        default_val = def;
      })) { float_val = some def })
      ps

-- `static_cast<float>` of an integer is an argument.
unfoldable pub register_int : (ℤ → Float32) → Params → Text → Text → ℤ → ℤ → ℤ → Text → Params
register_int to_float ps key label lo hi def group =
    insert key
      (record (blank_record (record (blank_def key label int_type group) {
        min_val = to_float lo;
        max_val = to_float hi;
        step = float_one;
        default_val = to_float def;
      })) { int_val = some def })
      ps

unfoldable pub register_bool : Params → Text → Text → Bool → Text → Params
register_bool ps key label def group =
    insert key
      (record (blank_record (record (blank_def key label bool_type group) {
        default_val = if def then float_one else float_zero;
      })) { bool_val = some def })
      ps

unfoldable pub register_enum : Params → Text → Text → List Text → Text → Text → Params
register_enum ps key label options def group =
    insert key
      (record (blank_record
        (record (blank_def key label enum_type group) { enum_options = options })) {
          string_val = def;
        })
      ps

-- The result of a read: `none` inside is an uninitialised field.
unfoldable pub get_float : Params → Text → Option Float32
get_float ps key = elim (lookup key ps) [ none ↦ some float_zero | some r ↦ r.float_val ]

unfoldable pub get_int : Params → Text → Option ℤ
get_int ps key = elim (lookup key ps) [ none ↦ some (pos 0) | some r ↦ r.int_val ]

unfoldable pub get_bool : Params → Text → Option Bool
get_bool ps key = elim (lookup key ps) [ none ↦ some false | some r ↦ r.bool_val ]

unfoldable pub get_string : Params → Text → Text
get_string ps key = elim (lookup key ps) [ none ↦ [] | some r ↦ r.string_val ]

-- The field that the parameter's type selects.
unfoldable pub update_record : AppParamUpdate → ParamRecord → ParamRecord
update_record u r =
    if text_eq r.def.type float_type
    then record r { float_val = some u.float_val }
    else (if text_eq r.def.type int_type
        then record r { int_val = some u.int_val }
        else (if text_eq r.def.type bool_type
            then record r { bool_val = some u.bool_val }
            else (if text_eq r.def.type enum_type
                then record r { string_val = u.string_val }
                else r)))

unfoldable pub apply_update : AppParamUpdate → Params → Params
apply_update u ps = modify (update_record u) u.key ps

unfoldable pub defs : Params → List AppParamDef
defs [] = []
defs ((k, r) ∷ ps) = r.def ∷ defs ps

unfoldable pub to_schema : Text → Params → AppParamSchema
unfolding defs
to_schema app_name ps = record { app_name = app_name; params = defs ps }

abbrev blank_update : Text → AppParamUpdate
blank_update key = record {
  key = key;
  float_val = float_zero;
  int_val = pos 0;
  bool_val = false;
  string_val = [];
}

-- `none`: the field that the type selects is uninitialised.
unfoldable pub value_of : Text → ParamRecord → Option AppParamUpdate
value_of key r =
    if text_eq r.def.type float_type
    then elim r.float_val [
      | none ↦ none
      | some x ↦ some (record (blank_update key) { float_val = x })
    ]
    else (if text_eq r.def.type int_type
        then elim r.int_val [
          | none ↦ none
          | some x ↦ some (record (blank_update key) { int_val = x })
        ]
        else (if text_eq r.def.type bool_type
            then elim r.bool_val [
              | none ↦ none
              | some x ↦ some (record (blank_update key) { bool_val = x })
            ]
            else (if text_eq r.def.type enum_type
                then some (record (blank_update key) { string_val = r.string_val })
                else some (blank_update key))))

unfoldable pub values : Params → Option (List AppParamUpdate)
values [] = some []
values ((k, r) ∷ ps) = elim (value_of k r) [
  | none ↦ none
  | some u ↦ elim (values ps) [ none ↦ none | some us ↦ some (u ∷ us) ]
]

unfoldable pub to_values : Text → Params → Option AppParamValues
to_values app_name ps = elim (values ps) [
  | none ↦ none
  | some us ↦ some (record { app_name = app_name; values = us })
]

unfoldable pub set_float : Params → Text → Float32 → Params
set_float ps key value = modify (λ r. record r { float_val = some value }) key ps

unfoldable pub set_int : Params → Text → ℤ → Params
set_int ps key value = modify (λ r. record r { int_val = some value }) key ps

unfoldable pub set_bool : Params → Text → Bool → Params
set_bool ps key value = modify (λ r. record r { bool_val = some value }) key ps

unfoldable pub set_string : Params → Text → Text → Params
set_string ps key value = modify (λ r. record r { string_val = value }) key ps
