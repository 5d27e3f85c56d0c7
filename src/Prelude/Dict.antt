-- ===== src/Prelude/Dict.antt =====
-- Python's `dict` with text keys, as an association list in insertion order.
use Prim.Native.String.{String}
use mathlib.Core.Path.{◌≡◌, refl}
use mathlib.Core.List.{List, [], ◌∷◌}
use mathlib.Core.Option.{Option, none, some}
use native.Mathlib.Omega.{arith}
use text.Mathlib.Text.{◌==◌ as str_eq}
use text.Mathlib.TextEquality.{eq_iff}
use smart_sre_copilot.Prelude.Tests.{if◌then◌else◌}

module _ {ℓ} {V : Type ℓ} where
  -- `entries.get(wanted)`
  unfoldable pub lookup : String → List (String × V) → Option V
  lookup wanted [] = none
  lookup wanted ((key, value) ∷ entries) =
      if str_eq key wanted then some value else lookup wanted entries

  -- `entries[new] = value`: a key that is there keeps its place.
  unfoldable pub insert : String → V → List (String × V) → List (String × V)
  insert new value [] = (new, value) ∷ []
  insert new value ((key, old) ∷ entries) =
      let rest = insert new value entries in
      if str_eq key new then (new, value) ∷ entries else (key, old) ∷ rest

  -- `entries.pop(gone, None)`, which is also `del entries[gone]` at a key that is there.
  unfoldable pub remove : String → List (String × V) → List (String × V)
  remove gone [] = []
  remove gone (entry ∷ entries) =
      let rest = remove gone entries in if str_eq entry.0 gone then rest else entry ∷ rest

  pub lookup-insert :
      (new wanted : String) (value : V) (entries : List (String × V))
      → (if str_eq new wanted then some value else lookup wanted entries)
        ≡ lookup wanted (insert new value entries)
  unfolding lookup insert
  lookup-insert new wanted value [] = refl
  lookup-insert new wanted value ((key, old) ∷ entries) = ground (
    arith,
    lookup-insert new wanted value entries,
    eq_iff key new,
    eq_iff new wanted,
    eq_iff key wanted,
  )

  pub lookup-remove :
      (gone wanted : String) (entries : List (String × V))
      → (if str_eq gone wanted then none else lookup wanted entries)
        ≡ lookup wanted (remove gone entries)
  unfolding lookup remove
  lookup-remove gone wanted [] = ground arith
  lookup-remove gone wanted ((key, old) ∷ entries) = ground (
    arith,
    eq_iff key gone,
    eq_iff key wanted,
    eq_iff gone wanted,
    lookup-remove gone wanted entries,
  )
