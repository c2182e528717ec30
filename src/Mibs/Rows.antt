-- ===== src/Mibs/Rows.antt =====
-- The data of a table, as the updaters of src/sonic_ax_impl/mibs keep them: a dict from the
-- sub-identifiers to the values, and a list of the sub-identifiers, which is sorted once it is full.
pub mod Successor
pub mod Table
pub mod Steps
use sonic_snmpagent.Prelude.{
  ℕ, zero, suc, List, [], ◌∷◌, ◌++◌, length, Option, none, some, Result, ok, err, index_error,
  ◌>>=◌, leb, if◌then◌else◌,
}
use sonic_snmpagent.Dict.{Dict, find, set, list_eq}
use sonic_snmpagent.Order.{bisect_right, sorted}

pub record Rows {ℓ} (V : Type ℓ) : Type ℓ where
  pub value_map : Dict (List ℕ) V
  pub sub_ids : List (List ℕ)

module _ {ℓ} {V : Type ℓ} where
  unfoldable pub no_rows : Rows V
  no_rows = record { value_map = []; sub_ids = [] }

  -- `map[sub_id] = value` and `list.append(sub_id)`
  unfoldable pub add_row : List ℕ → V → Rows V → Rows V
  add_row sub_id value r = record {
    value_map = set sub_id value r.value_map;
    sub_ids = r.sub_ids ++ (sub_id ∷ []);
  }

  -- `list.sort()`
  unfoldable pub sort_rows : Rows V → Rows V
  sort_rows r = record { value_map = r.value_map; sub_ids = sorted r.sub_ids }

  -- `map.get(sub_id, None)`
  unfoldable pub value_of : Rows V → List ℕ → Option V
  value_of r sub_id = find sub_id r.value_map

-- `list[i]`
unfoldable pub item_at {ℓ} : {A : Type ℓ} → List A → ℕ → Result A
item_at [] i = err index_error
item_at (x ∷ xs) zero = ok x
item_at (x ∷ xs) (suc i) = item_at xs i

unfoldable pub next_sub_id : List (List ℕ) → List ℕ → Result (Option (List ℕ))
unfolding item_at
next_sub_id sub_ids sub_id =
    let right = bisect_right sub_ids sub_id in
    if leb (length sub_ids) right
    then ok none
    else (do next ← item_at sub_ids right; ok (some next))

-- `None` for a missing value as for a value `None`.
unfoldable pub flatten {ℓ} : {A : Type ℓ} → Option (Option A) → Option A
flatten none = none
flatten (some value) = value
