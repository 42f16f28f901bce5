-- ===== src/Prelude/Assoc.antt =====
-- String-keyed maps as association lists, with the laws in `if` form.
use Prim.Native.String.{String}
use text.Mathlib.Text.{◌==◌ as str_eq}
use text.Mathlib.TextEquality.{eq_iff}
use mathlib.Core.Path.{◌≡◌, refl}
use mathlib.Core.List.{List, [], ◌∷◌}
use mathlib.Core.Option.{Option, none, some}
use native.Mathlib.Omega.{arith}
use torana_edge.Prelude.Tests.{if◌then◌else◌}

module _ {ℓ} {V : Type ℓ} where
  -- `delete(m, key)`
  unfoldable pub remove : String → List (String × V) → List (String × V)
  remove key [] = []
  remove key ((name, value) ∷ rest) =
      let shorter = remove key rest in if str_eq name key then shorter else (name, value) ∷ shorter

  -- `m[key]`
  unfoldable pub lookup : String → List (String × V) → Option V
  lookup key [] = none
  lookup key ((name, value) ∷ rest) =
      let later = lookup key rest in if str_eq name key then some value else later

  -- `m[key] = value`
  unfoldable pub insert : String → V → List (String × V) → List (String × V)
  insert key value [] = (key, value) ∷ []
  insert key value ((name, old) ∷ rest) =
      let later = insert key value rest in
      if str_eq name key then (key, value) ∷ rest else (name, old) ∷ later

  pub lookup-remove :
      (gone key : String) (m : List (String × V))
      → lookup key (remove gone m) ≡ (if str_eq gone key then none else lookup key m)
  unfolding lookup remove
  lookup-remove gone key [] = ground arith
  lookup-remove gone key ((name, value) ∷ rest) =
      ground
        (arith, lookup-remove gone key rest, eq_iff gone key, eq_iff name gone, eq_iff name key)

  pub lookup-insert :
      (new key : String) (value : V) (m : List (String × V))
      → lookup key (insert new value m) ≡ (if str_eq new key then some value else lookup key m)
  unfolding lookup insert
  lookup-insert new key value [] = refl
  lookup-insert new key value ((name, old) ∷ rest) =
      ground
        (arith, lookup-insert new key value rest, eq_iff new key, eq_iff name new, eq_iff name key)
