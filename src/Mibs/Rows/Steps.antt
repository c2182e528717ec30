-- ===== src/Mibs/Rows/Steps.antt =====
-- The loops by which the updaters fill their rows. A step returns or raises, and leaves the rows as
-- far as it has come.
use sonic_snmpagent.Prelude.{ℕ, ◌≡◌, ap, List, [], ◌∷◌, ◌++◌, Result, ok, err}
use mathlib.Core.Path.{subst}
use sonic_snmpagent.Dict.{list_eq}
use sonic_snmpagent.Mibs.Effect.{Effect, Keeps, and_then}
use sonic_snmpagent.Order.Sorting.{IsSorted, sorted-IsSorted}
use sonic_snmpagent.Mibs.Rows.{Rows, sort_rows, add_row}
use sonic_snmpagent.Mibs.Rows.Table.{IsTable, sort_rows-IsTable}

-- A step of a loop that fills the rows.
abbrev pub Step {ℓ} : Type ℓ → Type ℓ
Step V = Effect (Rows V)

module _ {ℓ} {V : Type ℓ} where
  unfoldable pub then_sort : Step V → Step V
  unfolding and_then
  then_sort o = and_then o (λ r. (ok tt, sort_rows r))

  -- `list.append(sub_id)` before a value that may raise, and `map[sub_id] = value` behind it.
  unfoldable pub append_then : List ℕ → Result V → Rows V → Step V
  append_then sub_id (err e) r = (err e, record r { sub_ids = r.sub_ids ++ (sub_id ∷ []) })
  append_then sub_id (ok value) r = (ok tt, add_row sub_id value r)

module _ {ℓ} {V : Type ℓ} (Good : V → Type 0) where
  pub then_sort_lem :
      (o : Step V) (r : Rows V)
      → Keeps (IsTable Good) o
      → then_sort o ≡ (ok tt, r)
      → IsTable Good r × IsSorted r.sub_ids
  unfolding then_sort sort_rows
  then_sort_lem (err e, s) r k h = absurd (cc (ap (λ p. p.0) h))
  then_sort_lem (ok done, s) r k h =
      subst (λ r. IsTable Good r × IsSorted r.sub_ids) (ap (λ p. p.1) h)
        (sort_rows-IsTable Good s k, sorted-IsSorted s.sub_ids)
