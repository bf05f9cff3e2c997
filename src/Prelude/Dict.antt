-- ===== src/Prelude/Dict.antt =====
-- Go's `map[string]V` as an association list; the program never depends on its order.
use Prim.Native.String.{String}
use mathlib.Core.Path.{◌≡◌, refl}
use mathlib.Core.Option.{Option, none, some}
use mathlib.Core.List.{List, [], ◌∷◌}
use native.Mathlib.Omega.{arith}
use text.Mathlib.Text.{◌==◌}
use text.Mathlib.TextEquality.{eq_iff}
use server_assistant.Prelude.Tests.{if◌then◌else◌}

abbrev pub Dict {ℓ} : Type ℓ → Type ℓ
Dict V = List (String × V)

module _ {ℓ} {V : Type ℓ} where
  -- entry, ok := dict[key]
  unfoldable pub lookup : String → Dict V → Option V
  lookup key [] = none
  lookup key (entry ∷ dict) = if entry.0 == key then some entry.1 else lookup key dict

  -- dict[key] = value: the last write to a key wins.
  unfoldable pub insert : String → V → Dict V → Dict V
  insert key value [] = (key, value) ∷ []
  insert key value (entry ∷ dict) =
      let rest = insert key value dict in
      if entry.0 == key then (entry.0, value) ∷ dict else entry ∷ rest

  -- delete(dict, key)
  unfoldable pub erase : String → Dict V → Dict V
  erase key [] = []
  erase key (entry ∷ dict) =
      let rest = erase key dict in if entry.0 == key then rest else entry ∷ rest

  pub lookup-insert :
      (key other : String) (value : V) (dict : Dict V)
      → lookup other (insert key value dict)
        ≡ (if key == other then some value else lookup other dict)
  unfolding insert lookup
  lookup-insert key other value [] = refl
  lookup-insert key other value (entry ∷ dict) =
      let rest = lookup-insert key other value dict in
      let name = entry.0 in
      ground (arith, rest, eq_iff name other, eq_iff name key, eq_iff key other)

  pub lookup-erase :
      (key other : String) (dict : Dict V)
      → lookup other (erase key dict) ≡ (if key == other then none else lookup other dict)
  unfolding erase lookup
  lookup-erase key other [] = ground arith
  lookup-erase key other (entry ∷ dict) =
      let rest = lookup-erase key other dict in
      let name = entry.0 in
      ground (arith, rest, eq_iff name other, eq_iff name key, eq_iff key other)

pub ruleset dict_laws = (lookup-insert, lookup-erase)
