-- ===== src/Base/Json.antt =====
-- JSON documents as `encoding/json` reads them into `any`, with natural numbers. The members of an
-- object have distinct keys.
use Prim.Native.Nat.{ℕ}
use Prim.Native.String.{String}
use mathlib.Core.Path.{◌≡◌, refl}
use mathlib.Core.Bool.{Bool}
use mathlib.Core.Option.{Option, none, some}
use native.Mathlib.Omega.{arith}
use text.Mathlib.TextEquality.{eq_iff}
use package.easyshift.Base.Tests.{◌==◌, if◌then◌else◌}

mutual
  pub data Json : Type 0 where
    null : Json
    bool : Bool → Json
    number : ℕ → Json
    string : String → Json
    array : Items → Json
    object : Members → Json

  pub data Items : Type 0 where
    nil : Items
    cons : Json → Items → Items

  pub data Members : Type 0 where
    end : Members
    member : String → Json → Members → Members

-- `m[k]`, and `m[k] = v`
unfoldable pub value_at : String → Members → Option Json
value_at k end = none
value_at k (member j v m) = if j == k then some v else value_at k m

unfoldable pub put : String → Json → Members → Members
put k v end = member k v end
put k v (member j w m) = let rest = put k v m in if j == k then member k v m else member j w rest

-- `append(items, v)`
unfoldable pub append_item : Items → Json → Items
append_item nil v = cons v nil
append_item (cons x xs) v = cons x (append_item xs v)

pub value_at-put :
    (j k : String) (v : Json) (m : Members)
    → value_at j (put k v m) ≡ (if k == j then some v else value_at j m)
unfolding value_at put
value_at-put j k v end = refl
value_at-put j k v (member i w m) =
    ground (arith, eq_iff k j, eq_iff i k, eq_iff i j, value_at-put j k v m)
