-- ===== src/Params/Transfer.antt =====
-- `toValues` of one store, applied to another with the same schema.
use matrixserver.Common.{◌≡◌, List, [], ◌∷◌}
use matrixserver.Protocol.{AppParamUpdate}
use matrixserver.Params.Store.{Params, apply_update}

-- One `setAppParam` message for each value, in order.
unfoldable pub apply_all : List AppParamUpdate → Params → Params
apply_all [] ps = ps
apply_all (u ∷ us) ps = apply_all us (apply_update u ps)

-- The same keys with the same types.
abbrev pub SameSchema : Params → Params → Type 0
SameSchema [] [] = Unit
SameSchema [] ((j, q) ∷ qs) = ⊥
SameSchema ((k, r) ∷ ps) [] = ⊥
SameSchema ((k, r) ∷ ps) ((j, q) ∷ qs) = (k ≡ j) × (r.def.type ≡ q.def.type) × SameSchema ps qs
