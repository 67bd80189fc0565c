-- ===== src/Prelude/Maps.antt =====
-- `Map<string, V>` as an association list in insertion order: `set` replaces a value in its place
-- and appends a new key, `delete` drops the key.
use istream.Prelude.Tests.{if◌then◌else◌}
use Prim.Native.String.{String}
use mathlib.Core.Path.{◌≡◌, refl}
use mathlib.Core.Option.{Option, none, some}
use mathlib.Core.List.{List, [], ◌∷◌}
use native.Mathlib.Omega.{arith}
use text.Mathlib.Text.{◌==◌ as str_eq}
use text.Mathlib.TextEquality.{eq_iff}
use istream.Prelude.Lists.{All}

-- The entries of a map, the oldest key first.
abbrev pub Table {ℓ} : Type ℓ → Type ℓ
Table Value = List (String × Value)

module _ {ℓ} {V : Type ℓ} where
  -- `delete`
  unfoldable pub remove : String → Table V → Table V
  remove name [] = []
  remove name ((other, held) ∷ rest) =
      if str_eq other name then remove name rest else (other, held) ∷ remove name rest

  -- `set`
  unfoldable pub insert : String → V → Table V → Table V
  insert name value [] = (name, value) ∷ []
  insert name value ((other, held) ∷ rest) =
      if str_eq other name then (name, value) ∷ rest else (other, held) ∷ insert name value rest

  -- `get`
  unfoldable pub lookup : String → Table V → Option V
  lookup name [] = none
  lookup name ((other, held) ∷ rest) = if str_eq other name then some held else lookup name rest

  abbrev pub values : Table V → List V
  values [] = []
  values (entry ∷ rest) = entry.1 ∷ values rest

  pub lookup-remove :
      (name asked : String) (table : Table V)
      → (if str_eq name asked then none else lookup asked table) ≡ lookup asked (remove name table)
  unfolding lookup remove
  lookup-remove name asked [] = ground (arith, eq_iff name asked)
  lookup-remove name asked ((other, held) ∷ rest) = ground (
    arith,
    lookup-remove name asked rest,
    eq_iff other asked,
    eq_iff name asked,
    eq_iff other name,
  )

  pub lookup-insert :
      (name asked : String) (value : V) (table : Table V)
      → (if str_eq name asked then some value else lookup asked table)
        ≡ lookup asked (insert name value table)
  unfolding insert lookup
  lookup-insert name asked value [] = refl
  lookup-insert name asked value ((other, held) ∷ rest) = ground (
    arith,
    lookup-insert name asked value rest,
    eq_iff other asked,
    eq_iff name asked,
    eq_iff other name,
  )

module _ {ℓ κ} {V : Type ℓ} (P : String × V → Type κ) where
  pub All-insert :
      (k : String) (v : V) (m : List (String × V)) → All P m → P (k, v) → All P (insert k v m)
  unfolding insert
  All-insert k v [] h p = (p, tt)
  All-insert k v ((i, w) ∷ m) (q, h) p = ground (arith, All-insert k v m h p)

  pub All-remove : (k : String) (m : List (String × V)) → All P m → All P (remove k m)
  unfolding remove
  All-remove k [] h = tt
  All-remove k ((i, w) ∷ m) (q, h) = ground (arith, All-remove k m h)
