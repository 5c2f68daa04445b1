-- ===== src/Common/TextMaps.antt =====
-- Association lists keyed by texts, for `serde_json::Map` and the maps from names.
use mathlib.Core.Path.{◌≡◌, refl}
use mathlib.Core.List.{List, [], ◌∷◌}
use mathlib.Core.Option.{Option, none, some}
use native.Mathlib.Omega.{arith}
use mcpg_plugin_backend_sql.Common.Tests.{if◌then◌else◌}
use mcpg_plugin_backend_sql.Common.Texts.{Text, text_eq, text_eq_iff}

module _ {ℓ} {V : Type ℓ} where
  unfoldable pub lookup : Text → List (Text × V) → Option V
  lookup k [] = none
  lookup k ((j, v) ∷ m) = let rest = lookup k m in if text_eq j k then some v else rest

  -- A key that is there keeps its place.
  unfoldable pub insert : Text → V → List (Text × V) → List (Text × V)
  insert k v [] = (k, v) ∷ []
  insert k v ((j, w) ∷ m) =
      let rest = insert k v m in if text_eq j k then (k, v) ∷ m else (j, w) ∷ rest

  unfoldable pub remove : Text → List (Text × V) → List (Text × V)
  remove k [] = []
  remove k ((j, v) ∷ m) = let rest = remove k m in if text_eq j k then rest else (j, v) ∷ rest

  pub lookup-insert :
      (key sought : Text) (value : V) (table : List (Text × V))
      → lookup sought (insert key value table)
        ≡ (if text_eq key sought then some value else lookup sought table)
  unfolding insert lookup
  lookup-insert key sought value [] = refl
  lookup-insert key sought value ((first, held) ∷ table) = ground (
    arith,
    text_eq_iff key sought,
    text_eq_iff first key,
    text_eq_iff first sought,
    lookup-insert key sought value table,
  )

  pub lookup-remove :
      (key sought : Text) (table : List (Text × V))
      → lookup sought (remove key table)
        ≡ (if text_eq key sought then none else lookup sought table)
  unfolding remove lookup
  lookup-remove key sought [] = ground arith
  lookup-remove key sought ((first, held) ∷ table) = ground (
    arith,
    text_eq_iff key sought,
    text_eq_iff first key,
    text_eq_iff first sought,
    lookup-remove key sought table,
  )
