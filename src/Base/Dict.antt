-- ===== src/Base/Dict.antt =====
-- Go's `map[string]V` as an association list. Go leaves the order of its keys open; what the
-- program prints of a map it sorts first.
use Prim.Native.String.{String}
use mathlib.Core.Path.{◌≡◌, refl}
use mathlib.Core.Bool.{Bool, true, false, not, ◌&&◌, ◌||◌}
use mathlib.Core.List.{List, [], ◌∷◌, map}
use mathlib.Core.Option.{Option, none, some}
use native.Mathlib.Omega.{arith}
use text.Mathlib.TextEquality.{eq_iff}
use package.easyshift.Base.Tests.{◌==◌, if◌then◌else◌}

abbrev pub Dict : Type 0 → Type 0
Dict V = List (String × V)

module _ {V : Type 0} where
  -- `v, ok := m[k]`
  unfoldable pub lookup : String → Dict V → Option V
  lookup k [] = none
  lookup k ((j, v) ∷ m) = if j == k then some v else lookup k m

  -- `m[k] = v`
  unfoldable pub insert : String → V → Dict V → Dict V
  insert k v [] = (k, v) ∷ []
  insert k v ((j, w) ∷ m) = if j == k then (k, v) ∷ m else (j, w) ∷ insert k v m

  -- `delete(m, k)`
  unfoldable pub erase : String → Dict V → Dict V
  erase k [] = []
  erase k ((j, w) ∷ m) = let rest = erase k m in if j == k then rest else (j, w) ∷ rest

  -- `_, ok := m[k]`
  unfoldable pub has : String → Dict V → Bool
  has k m = elim (lookup k m) [ none ↦ false | some _ ↦ true ]

  unfoldable pub keys : Dict V → List String
  keys = map (λ e. e.0)

  pub lookup-insert :
      (j k : String) (v : V) (m : Dict V)
      → lookup j (insert k v m) ≡ (if k == j then some v else lookup j m)
  unfolding lookup insert
  lookup-insert j k v [] = refl
  lookup-insert j k v ((i, w) ∷ m) =
      ground (arith, eq_iff k j, eq_iff i k, eq_iff i j, lookup-insert j k v m)

  pub lookup-erase :
      (j k : String) (m : Dict V) → lookup j (erase k m) ≡ (if k == j then none else lookup j m)
  unfolding lookup erase
  lookup-erase j k [] = ground arith
  lookup-erase j k ((i, w) ∷ m) =
      ground (arith, eq_iff k j, eq_iff i k, eq_iff i j, lookup-erase j k m)

  pub has-insert : (j k : String) (v : V) (m : Dict V) → has j (insert k v m) ≡ (k == j || has j m)
  unfolding has
  has-insert j k v m = ground (arith, lookup-insert j k v m)

  pub has-erase : (j k : String) (m : Dict V) → has j (erase k m) ≡ (not (k == j) && has j m)
  unfolding has
  has-erase j k m = ground (arith, lookup-erase j k m)

-- `m[k]` of a `map[string]bool`: false for a missing key.
unfoldable pub flag : String → Dict Bool → Bool
flag k m = elim (lookup k m) [ none ↦ false | some b ↦ b ]

pub flag-insert : (j k : String) (m : Dict Bool) → flag j (insert k true m) ≡ (k == j || flag j m)
unfolding flag
flag-insert j k m = ground (arith, lookup-insert j k true m)

pub flag-erase : (j k : String) (m : Dict Bool) → flag j (erase k m) ≡ (not (k == j) && flag j m)
unfolding flag
flag-erase j k m = ground (arith, lookup-erase j k m)
