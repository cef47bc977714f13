-- ===== src/Prelude/Maps.antt =====
-- A Go `map[string]V` as an association list: a write replaces, a delete removes every entry.
use Prim.Native.String.{String}
use text.Mathlib.Text.{◌==◌ as str_eq}
use text.Mathlib.TextEquality.{eq_iff}
use mathlib.Core.Path.{◌≡◌, refl}
use mathlib.Core.List.{List, [], ◌∷◌}
use mathlib.Core.Option.{Option, none, some}
use mathlib.Core.Option
use native.Mathlib.Omega.{arith}
use pyairtable_go_services.Prelude.Tests.{if◌then◌else◌}

abbrev pub Dict {ℓ} : Type ℓ → Type ℓ
Dict V = List (String × V)

module _ {ℓ} {V : Type ℓ} where
  unfoldable pub lookup : String → Dict V → Option V
  lookup key [] = none
  lookup key (entry ∷ dict) = if str_eq entry.0 key then some entry.1 else lookup key dict

  unfoldable pub insert : String → V → Dict V → Dict V
  insert key value [] = (key, value) ∷ []
  insert key value (entry ∷ dict) =
      let rest = insert key value dict in
      if str_eq entry.0 key then (key, value) ∷ dict else entry ∷ rest

  unfoldable pub erase : String → Dict V → Dict V
  erase key [] = []
  erase key (entry ∷ dict) =
      let rest = erase key dict in if str_eq entry.0 key then rest else entry ∷ rest

  unfoldable pub map_values : (V → V) → Dict V → Dict V
  map_values f [] = []
  map_values f (entry ∷ dict) = (entry.0, f entry.1) ∷ map_values f dict

  pub lookup-insert :
      (written key : String) (value : V) (dict : Dict V)
      → lookup key (insert written value dict)
        ≡ (if str_eq written key then some value else lookup key dict)
  unfolding lookup insert
  lookup-insert written key value [] = refl
  lookup-insert written key value (entry ∷ dict) = ground (
    arith,
    eq_iff written key,
    eq_iff entry.0 key,
    eq_iff entry.0 written,
    lookup-insert written key value dict,
  )

  pub lookup-erase :
      (gone key : String) (dict : Dict V)
      → lookup key (erase gone dict) ≡ (if str_eq gone key then none else lookup key dict)
  unfolding lookup erase
  lookup-erase gone key [] = ground arith
  lookup-erase gone key (entry ∷ dict) =
      ground (
        arith,
        eq_iff gone key,
        eq_iff entry.0 key,
        eq_iff entry.0 gone,
        lookup-erase gone key dict,
      )

  pub lookup-map_values :
      (f : V → V) (key : String) (dict : Dict V)
      → lookup key (map_values f dict) ≡ Option.map f (lookup key dict)
  unfolding lookup map_values
  lookup-map_values f key [] = refl
  lookup-map_values f key (entry ∷ dict) = ground (arith, lookup-map_values f key dict)
