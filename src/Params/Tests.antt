-- ===== src/Params/Tests.antt =====
-- Runs of the parameter store at concrete inputs.
use matrixserver.Common.{◌≢◌, ◌≡◌, List, [], ◌∷◌, true, false}
use matrixserver.Common.Int.{ℤ, pos}
use matrixserver.Protocol.{Text, Float32, AppParamUpdate}
use matrixserver.Params.TextMap.{lookup}
use matrixserver.Params.Store.{Params, apply_update, to_schema}
use matrixserver.Params.Updates.{
  IsValid, registers_float, registers_bool, applies, run, Call, run-new-IsValid, apply_update_lem,
  Updated,
}

abbrev speed : Text
speed = b's' ∷ b'p' ∷ []

abbrev loud : Text
loud = b'l' ∷ []

abbrev faster : AppParamUpdate
faster = record { key = speed; float_val = 5; int_val = pos 0; bool_val = false; string_val = [] }

abbrev calls : List Call
calls = registers_float speed speed 0 9 1 1 [] ∷ registers_bool loud loud true [] ∷ []

-- The bits of a float of an integer are not needed here.
abbrev float_of : ℤ → Float32
float_of n = 0

abbrev store : Params
store = run float_of [] calls

abbrev changed_store : Params
changed_store = run float_of [] (
    registers_float speed speed 0 9 1 1 [] ∷ registers_bool loud loud true [] ∷ applies faster ∷ [])

run-new-IsValid_example : IsValid store
run-new-IsValid_example = run-new-IsValid float_of calls

apply_update_lem_example :
    Updated faster (lookup speed store) (lookup speed (apply_update faster store))
    × ((j : Text) → j ≢ speed → lookup j (apply_update faster store) ≡ lookup j store)
    × (to_schema [] (apply_update faster store) ≡ to_schema [] store)
apply_update_lem_example = apply_update_lem faster store []
