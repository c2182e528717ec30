-- ===== src/Mib/Successor/Reach.antt =====
-- A walk over the MIB table: each GetNext request starts at the name that the one before was
-- answered with, as snmpwalk does.
use sonic_snmpagent.Prelude.{
  take, drop, ℕ, zero, suc, ◌≤◌, ◌<◌, ◌≡◌, inl, inr, ◌∙◌, arith, List, [], ◌∷◌, ◌++◌, ok,
  if◌then◌else◌, Bool-cases, >>=-eq-ok,
}
use sonic_snmpagent.Constants.{ValueType, internet_prefix}
use sonic_snmpagent.Encodings.Oid.{ObjectIdentifier, to_tuple, eq_tuple, from_iterable, strip}
use sonic_snmpagent.Encodings.Oid.Names.{to_tuple-from_iterable}
use sonic_snmpagent.Encodings.Value.{Data, ValueRepresentation, from_typecast, typecast, layout}
use sonic_snmpagent.Order.{◌≺◌, In, lt_tuple}
use sonic_snmpagent.Order.Lex.{≼_cases, ≺_trans, ≺_irrefl}
use sonic_snmpagent.Mib.Table.{MibTable, get_next_value}
use sonic_snmpagent.Mib.Successor.{IsView, IsUnder, IsServed, successor, exhausted}
use sonic_snmpagent.Mib.Successor.Main.{get_next_value-Answer}

-- From `start`, requests up to `end` lead to an answer with the name `name`.
pub data Walks (t : MibTable) (end : ObjectIdentifier) (name : List ℕ)
    : ObjectIdentifier → Type 0 where
  arrived : (start : ObjectIdentifier) → to_tuple start ≡ name → Walks t end name start
  onward :
      (start : ObjectIdentifier) (vr : ValueRepresentation)
      → get_next_value t (record { start = start; end = end }) ≡ ok vr
      → Walks t end name vr.name
      → Walks t end name start

-- The number of names above `s`.
above : List ℕ → List (List ℕ) → ℕ
above s [] = 0
above s (n ∷ names) = if lt_tuple s n then suc (above s names) else above s names

above_less : (s k : List ℕ) (names : List (List ℕ)) → s ≺ k → above k names ≤ above s names
unfolding above
above_less s k [] l = omega arith
above_less s k (n ∷ names) l = elim (Bool-cases (lt_tuple k n)) [
  | inl e ↦ rw (e, ≺_trans s k n l e) (omega (arith, above_less s k names l))
  | inr e ↦ ground (arith, above_less s k names l)
]

above_fewer :
    (s k : List ℕ) (names : List (List ℕ)) → s ≺ k → In k names → above k names < above s names
unfolding above
above_fewer s k [] l i = absurd i
above_fewer s k (n ∷ names) l (inl e) =
    rw (← e, l, ≺_irrefl k) (omega (arith, above_less s k names l))
above_fewer s k (n ∷ names) l (inr i) = elim (Bool-cases (lt_tuple k n)) [
  | inl e ↦ rw (e, ≺_trans s k n l e) (omega (arith, above_fewer s k names l i))
  | inr e ↦ ground (arith, above_fewer s k names l i)
]

-- An answer carries the name as it was found, and can start the next request.
strip-include : (rest : List ℕ) (o : ObjectIdentifier) → strip rest ≡ ok o → o.include ≡ 0
unfolding strip
strip-include [] o h = cc
strip-include (p ∷ rest) o h = ground arith

from_iterable-include :
    (name : List ℕ) (o : ObjectIdentifier) → from_iterable name ≡ ok o → o.include ≡ 0
unfolding from_iterable
from_iterable-include name o h = elim (Bool-cases (eq_tuple (take 4 name) internet_prefix)) [
  | inl e ↦ strip-include (drop 4 name) o (rw e at h)
  | inr e ↦ ground arith
]

name_lem :
    (type_ : ValueType) (name : List ℕ) (d : Data) (vr : ValueRepresentation)
    → from_typecast type_ name d ≡ ok vr
    → from_iterable name ≡ ok vr.name
unfolding from_typecast
name_lem type_ name d vr h =
    let (o, p, q) = >>=-eq-ok (from_iterable name) _ h in
    let (value, r, e) = >>=-eq-ok (typecast (layout type_) d) _ q in cc

module _ (t : MibTable) (View : List ℕ → List ℕ → Type 0) (v : IsView t View)
    (end : ObjectIdentifier) (names : List (List ℕ))
    (finite : (m : List ℕ) → IsUnder View t.prefixes m → In m names)
    (plain : (m rest : List ℕ) → IsUnder View t.prefixes m → m ≡ internet_prefix ++ (0 ∷ rest) → ⊥)
    (typed : (name : List ℕ) (type_ : ValueType) (d : Data)
      → IsServed t View name type_ d
      → (vr : ValueRepresentation) × (from_typecast type_ name d ≡ ok vr)) where
  reaches :
      (n : ℕ) (start : ObjectIdentifier) (m : List ℕ)
      → start.include ≡ 0
      → above (to_tuple start) names < n
      → IsUnder View t.prefixes m
      → to_tuple start ≺ m
      → m ≺ to_tuple end
      → Walks t end m start
  reaches zero start m excluded few u l b = absurd (omega arith)
  reaches (suc n) start m excluded few u l b =
      elim (get_next_value-Answer t View v (record { start = start; end = end }) excluded) [
        | exhausted low e ↦ cc (low m u l)
        | successor name type_ d served ab low e ↦
            let (vr, ok_vr) = typed name type_ d served in
            let under : IsUnder View t.prefixes name = record {
              prefix = served.prefix;
              sub_id = served.sub_id;
              there = served.there;
              key = served.key;
              joined = served.joined;
            } in
            let oid = name_lem type_ name d vr ok_vr in
            let named = same_name name vr.name under oid in
            onward start vr (e ∙ ok_vr) (elim (≼_cases name m (low m u l)) [
              | inr same ↦ arrived vr.name (named ∙ same)
              | inl below ↦
                  reaches n vr.name m (from_iterable-include name vr.name oid)
                    (rw named (
                      omega
                        (arith, above_fewer (to_tuple start) name names ab (finite name under))))
                    u (rw named below) b
            ])
      ]
    where
      same_name :
          (name : List ℕ) (o : ObjectIdentifier)
          → IsUnder View t.prefixes name
          → from_iterable name ≡ ok o
          → to_tuple o ≡ name
      same_name name o under oid = elim (to_tuple-from_iterable name o oid) [
        | inl (e, other) ↦ e
        | inr (tail, e, w) ↦ absurd (plain name tail under e)
      ]

  -- A walk, in which each GetNext request starts at the name that the one before was answered
  -- with, reaches every instantiated name between its start and its end. The view is as for a
  -- single search, its names are finitely many and none starts with 1.3.6.1.0, each value can be
  -- made a binding, and the start is not included.
  pub walk_reaches :
      (start : ObjectIdentifier) (m : List ℕ)
      → start.include ≡ 0
      → IsUnder View t.prefixes m
      → to_tuple start ≺ m
      → m ≺ to_tuple end
      → Walks t end m start
  walk_reaches start m excluded u l b =
      reaches (suc (above (to_tuple start) names)) start m excluded (omega arith) u l b
