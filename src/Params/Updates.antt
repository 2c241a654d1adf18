-- ===== src/Params/Updates.antt =====
-- What the calls on the parameter store keep, and how values travel between two stores.
use matrixserver.Common.{
  ◌≡◌, ◌≢◌, refl, sym, ap, true, false, Option, some, List, [], ◌∷◌, none, Bool, ◌⊎◌, inl, inr,
  arith, Bool-cases,
}
use mathlib.Core.Option
use matrixserver.Common.Sequences.{All}
use matrixserver.Common.Int.{ℤ}
use matrixserver.Protocol.{Text, Float32, text_eq, AppParamUpdate}
use matrixserver.Params.TextMap.{
  lookup, insert, modify, text_lt, IsSorted, insert-IsSorted, modify-IsSorted, lookup-modify,
  text_eq_iff,
}
use matrixserver.Params.Store.{
  ParamRecord, Params, float_type, int_type, bool_type, enum_type, register_float, register_int,
  register_bool, register_enum, update_record, apply_update, defs, to_schema, set_float, set_int,
  set_bool, set_string,
}

-- The type is one of the four, and the field that it selects has been written.
abbrev pub IsTyped : ParamRecord → Type 0
IsTyped r =
    ((r.def.type ≡ float_type) × (r.float_val ≢ none))
    ⊎ (((r.def.type ≡ int_type) × (r.int_val ≢ none))
        ⊎ (((r.def.type ≡ bool_type) × (r.bool_val ≢ none)) ⊎ (r.def.type ≡ enum_type)))

-- An entry stands under its own key.
abbrev pub IsEntry : Text × ParamRecord → Type 0
IsEntry (k, r) = (r.def.key ≡ k) × IsTyped r

pub record IsValid (ps : Params) : Type 0 where
  pub sorted : IsSorted ps
  pub entries : All IsEntry ps

-- The calls that change the store.
pub data Call : Type 0 where
  registers_float : Text → Text → Float32 → Float32 → Float32 → Float32 → Text → Call
  registers_int : Text → Text → ℤ → ℤ → ℤ → Text → Call
  registers_bool : Text → Text → Bool → Text → Call
  registers_enum : Text → Text → List Text → Text → Text → Call
  applies : AppParamUpdate → Call
  sets_float : Text → Float32 → Call
  sets_int : Text → ℤ → Call
  sets_bool : Text → Bool → Call
  sets_string : Text → Text → Call

unfoldable pub step : (ℤ → Float32) → Params → Call → Params
step f ps (registers_float k l lo hi d s g) = register_float ps k l lo hi d s g
step f ps (registers_int k l lo hi d g) = register_int f ps k l lo hi d g
step f ps (registers_bool k l d g) = register_bool ps k l d g
step f ps (registers_enum k l os d g) = register_enum ps k l os d g
step f ps (applies u) = apply_update u ps
step f ps (sets_float k x) = set_float ps k x
step f ps (sets_int k x) = set_int ps k x
step f ps (sets_bool k x) = set_bool ps k x
step f ps (sets_string k x) = set_string ps k x

unfoldable pub run : (ℤ → Float32) → Params → List Call → Params
run f ps [] = ps
run f ps (c ∷ cs) = run f (step f ps c) cs

insert-entries :
    (k : Text) (r : ParamRecord) (ps : Params)
    → IsEntry (k, r)
    → All IsEntry ps
    → All IsEntry (insert k r ps)
unfolding insert
insert-entries k r [] e a = (e, tt)
insert-entries k r ((j, q) ∷ ps) e a = elim (Bool-cases (text_eq j k)) [
  | inl h ↦ rw h (e, a.1)
  | inr h ↦ elim (Bool-cases (text_lt k j)) [
    | inl l ↦ rw (h, l) (e, a)
    | inr l ↦ rw (h, l) (a.0, insert-entries k r ps e a.1)
  ]
]

modify-entries :
    (f : ParamRecord → ParamRecord) (k : Text) (ps : Params)
    → ((j : Text) (r : ParamRecord) → IsEntry (j, r) → IsEntry (j, f r))
    → All IsEntry ps
    → All IsEntry (modify f k ps)
unfolding modify
modify-entries f k [] keep a = tt
modify-entries f k ((j, q) ∷ ps) keep a = elim (Bool-cases (text_eq j k)) [
  | inl h ↦ rw h (keep j q a.0, a.1)
  | inr h ↦ rw h (a.0, modify-entries f k ps keep a.1)
]

update-IsEntry :
    (u : AppParamUpdate) (j : Text) (r : ParamRecord)
    → IsEntry (j, r)
    → IsEntry (j, update_record u r)
unfolding update_record
update-IsEntry u j r e = elim (Bool-cases (text_eq r.def.type float_type)) [
  | inl f ↦ rw f (e.0, inl ((text_eq_iff r.def.type float_type).0 f, λ q. cc))
  | inr nf ↦ elim (Bool-cases (text_eq r.def.type int_type)) [
    | inl i ↦ rw (nf, i) (e.0, inr (inl ((text_eq_iff r.def.type int_type).0 i, λ q. cc)))
    | inr ni ↦ elim (Bool-cases (text_eq r.def.type bool_type)) [
      | inl b ↦
          rw (nf, ni, b) (e.0, inr (inr (inl ((text_eq_iff r.def.type bool_type).0 b, λ q. cc))))
      | inr nb ↦ elim (Bool-cases (text_eq r.def.type enum_type)) [
        | inl n ↦ rw (nf, ni, nb, n) (e.0, inr (inr (inr ((text_eq_iff r.def.type enum_type).0 n))))
        | inr nn ↦ rw (nf, ni, nb, nn) e
      ]
    ]
  ]
]

insert-IsValid :
    (k : Text) (r : ParamRecord) (ps : Params)
    → IsEntry (k, r)
    → IsValid ps
    → IsValid (insert k r ps)
insert-IsValid k r ps e v = record {
  sorted = insert-IsSorted k r ps v.sorted;
  entries = insert-entries k r ps e v.entries;
}

modify-IsValid :
    (f : ParamRecord → ParamRecord) (k : Text) (ps : Params)
    → ((j : Text) (r : ParamRecord) → IsEntry (j, r) → IsEntry (j, f r))
    → IsValid ps
    → IsValid (modify f k ps)
modify-IsValid f k ps keep v = record {
  sorted = modify-IsSorted f k ps v.sorted;
  entries = modify-entries f k ps keep v.entries;
}

step-IsValid : (f : ℤ → Float32) (ps : Params) (c : Call) → IsValid ps → IsValid (step f ps c)
unfolding step register_float register_int register_bool register_enum apply_update set_float
    set_int set_bool set_string
step-IsValid f ps (registers_float k l lo hi d s g) v = insert-IsValid k _ ps (refl, ground arith) v
step-IsValid f ps (registers_int k l lo hi d g) v = insert-IsValid k _ ps (refl, ground arith) v
step-IsValid f ps (registers_bool k l d g) v = insert-IsValid k _ ps (refl, ground arith) v
step-IsValid f ps (registers_enum k l os d g) v = insert-IsValid k _ ps (refl, ground arith) v
step-IsValid f ps (applies u) v = modify-IsValid (update_record u) u.key ps (update-IsEntry u) v
step-IsValid f ps (sets_float k x) v = modify-IsValid _ k ps (λ j r e. (e.0, ground arith)) v
step-IsValid f ps (sets_int k x) v = modify-IsValid _ k ps (λ j r e. (e.0, ground arith)) v
step-IsValid f ps (sets_bool k x) v = modify-IsValid _ k ps (λ j r e. (e.0, ground arith)) v
step-IsValid f ps (sets_string k x) v = modify-IsValid _ k ps (λ j r e. (e.0, ground arith)) v

run-IsValid : (f : ℤ → Float32) (ps : Params) (cs : List Call) → IsValid ps → IsValid (run f ps cs)
unfolding run
run-IsValid f ps [] v = v
run-IsValid f ps (c ∷ cs) v = run-IsValid f (step f ps c) cs (step-IsValid f ps c v)

-- After any calls on a new store: the keys stand once each and in order, every definition carries
-- its key, every type is one of the four, and the field that the type selects has been written.
pub run-new-IsValid : (f : ℤ → Float32) (cs : List Call) → IsValid (run f [] cs)
run-new-IsValid f cs = run-IsValid f [] cs (record { sorted = tt; entries = tt })

update_def : (u : AppParamUpdate) (r : ParamRecord) → (update_record u r).def ≡ r.def
unfolding update_record
update_def u r = ground arith

defs-modify :
    (u : AppParamUpdate) (k : Text) (ps : Params) → defs (modify (update_record u) k ps) ≡ defs ps
unfolding defs modify
defs-modify u k [] = refl
defs-modify u k ((j, r) ∷ ps) = ground (arith, update_def u r, defs-modify u k ps)

-- A record before and after an update: the field of the record's type has the update's value, and all
-- else is as before; of another type than the four, the record is as before.
pub record IsUpdated (u : AppParamUpdate) (r t : ParamRecord) : Type 0 where
  pub def : t.def ≡ r.def
  pub of_float : r.def.type ≡ float_type → t.float_val ≡ some u.float_val
  pub of_int : r.def.type ≡ int_type → t.int_val ≡ some u.int_val
  pub of_bool : r.def.type ≡ bool_type → t.bool_val ≡ some u.bool_val
  pub of_enum : r.def.type ≡ enum_type → t.string_val ≡ u.string_val
  pub not_float : r.def.type ≢ float_type → t.float_val ≡ r.float_val
  pub not_int : r.def.type ≢ int_type → t.int_val ≡ r.int_val
  pub not_bool : r.def.type ≢ bool_type → t.bool_val ≡ r.bool_val
  pub not_enum : r.def.type ≢ enum_type → t.string_val ≡ r.string_val

update-IsUpdated : (u : AppParamUpdate) (r : ParamRecord) → IsUpdated u r (update_record u r)
unfolding update_record
update-IsUpdated u r =
    let f = text_eq_iff r.def.type float_type in
    let i = text_eq_iff r.def.type int_type in
    let b = text_eq_iff r.def.type bool_type in
    let n = text_eq_iff r.def.type enum_type in
    record {
      def = ground arith;
      of_float = λ e. ground (arith, f.1 e);
      of_int = λ e.
          let nf : text_eq r.def.type float_type ≡ false = ap (λ t. text_eq t float_type) e in
          ground (arith, i.1 e, nf);
      of_bool = λ e.
          let nf : text_eq r.def.type float_type ≡ false = ap (λ t. text_eq t float_type) e in
          let ni : text_eq r.def.type int_type ≡ false = ap (λ t. text_eq t int_type) e in
          ground (arith, b.1 e, nf, ni);
      of_enum = λ e.
          let nf : text_eq r.def.type float_type ≡ false = ap (λ t. text_eq t float_type) e in
          let ni : text_eq r.def.type int_type ≡ false = ap (λ t. text_eq t int_type) e in
          let nb : text_eq r.def.type bool_type ≡ false = ap (λ t. text_eq t bool_type) e in
          ground (arith, n.1 e, nf, ni, nb);
      not_float = λ e. ground (arith, f, e);
      not_int = λ e. ground (arith, i, e);
      not_bool = λ e. ground (arith, b, e);
      not_enum = λ e. ground (arith, n, e);
    }

-- What the update makes of a lookup: nothing where there is no parameter.
pub data Updated (u : AppParamUpdate) : Option ParamRecord → Option ParamRecord → Type 0 where
  missing : Updated u none none
  changed : (r t : ParamRecord) → IsUpdated u r t → Updated u (some r) (some t)

map-Updated :
    (u : AppParamUpdate) (o : Option ParamRecord) → Updated u o (Option.map (update_record u) o)
map-Updated u none = missing
map-Updated u (some r) = changed r (update_record u r) (update-IsUpdated u r)

-- An update writes its value into the field that the type of its key's record selects, and changes
-- nothing else of that record; it adds no parameter, leaves what every other key finds, and leaves
-- the schema as it was.
pub apply_update_lem :
    (u : AppParamUpdate) (ps : Params) (app_name : Text)
    → Updated u (lookup u.key ps) (lookup u.key (apply_update u ps))
      × ((j : Text) → j ≢ u.key → lookup j (apply_update u ps) ≡ lookup j ps)
      × (to_schema app_name (apply_update u ps) ≡ to_schema app_name ps)
unfolding apply_update to_schema
apply_update_lem u ps app_name = (
  (let own = lookup-modify (update_record u) u.key u.key ps in
      let hit : text_eq u.key u.key ≡ true = (text_eq_iff u.key u.key).1 refl in
      rw (own, hit) (map-Updated u (lookup u.key ps))),
  (λ j h. elim (Bool-cases (text_eq u.key j)) [
    | inl e ↦ absurd (h (sym ((text_eq_iff u.key j).0 e)))
    | inr e ↦ rw (lookup-modify (update_record u) u.key j ps, e) refl
  ]),
  ap (λ d. record { app_name = app_name; params = d }) (defs-modify u u.key ps),
)
