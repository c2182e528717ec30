-- ===== src/Mib/Meta.antt =====
-- The metaclass MIBMeta of src/ax_interface/mib.py, which builds the table of a MIB class from its
-- members and its bases, and MIBTable.__init__.
pub mod Complete
use sonic_snmpagent.Prelude.{
  ℕ, ◌+◌, List, [], ◌∷◌, ◌++◌, length, map, Option, none, some, Result, ok, err, value_error, ◌>>=◌,
  Bool, true, false, ◌||◌, ◌==◌, if◌then◌else◌,
}
use sonic_snmpagent.Util.Text.{is_valid_oid, oid2tuple}
use sonic_snmpagent.Mib.Entry.{MibEntry}
use sonic_snmpagent.Mib.Table.{MibTable}

-- A value of `vars(cls)`; an updater is known by its identity.
pub data Member : Type 0 where
  entry : MibEntry → Member
  updater : ℕ → Member
  other : Member

-- The attributes `__subids__`, `__subtrees__` and `__updaters__`. In the dict, as in every dict of
-- the model, the first binding of a key is the one that counts.
pub record MibClass : Type 0 where
  pub sub_ids : List (List ℕ × MibEntry)
  pub prefixes : List (List ℕ)
  pub updaters : List ℕ

-- `d.update(new)`
unfoldable pub dict_update {ℓ} :
    {A : Type ℓ} → List (List ℕ × A) → List (List ℕ × A) → List (List ℕ × A)
dict_update d new = new ++ d

-- `n in s` and `s | {n}`
unfoldable pub member : ℕ → List ℕ → Bool
member n [] = false
member n (m ∷ ms) = n == m || member n ms

unfoldable pub union : List ℕ → List ℕ → List ℕ
unfolding member
union [] ms = ms
union (n ∷ ns) ms = let rest = union ns ms in if member n rest then rest else n ∷ rest

-- `setattr(me, MIBEntry.PREFIXLEN, ...)` and `setattr(me, MIBEntry.PREFIX, ...)`
unfoldable pub set_prefix : List ℕ → MibEntry → MibEntry
set_prefix prefix e = record {
  value_type = e.value_type;
  subtree = e.subtree;
  prefix = prefix ++ e.subtree;
  prefixlen = length prefix + length e.subtree;
  handler = e.handler;
}

-- The members of the class, in their order.
unfoldable pub gather : List ℕ → List Member → MibClass → MibClass
unfolding dict_update set_prefix union
gather prefix [] c = c
gather prefix (entry e ∷ ms) c = gather prefix ms (record {
  sub_ids = dict_update c.sub_ids ((prefix ++ e.subtree, set_prefix prefix e) ∷ []);
  prefixes = c.prefixes ++ ((prefix ++ e.subtree) ∷ []);
  updaters = c.updaters;
})
gather prefix (updater n ∷ ms) c =
    gather prefix ms
      (record { sub_ids = c.sub_ids; prefixes = c.prefixes; updaters = union (n ∷ []) c.updaters })
gather prefix (other ∷ ms) c = gather prefix ms c

abbrev pub empty_class : MibClass
empty_class = record { sub_ids = []; prefixes = []; updaters = [] }

-- What is declared in the class itself; a class without a prefix declares nothing.
unfoldable pub own : Option (List ℕ) → List Member → Result MibClass
unfolding gather is_valid_oid oid2tuple
own none members = ok empty_class
own (some prefix) members =
    if is_valid_oid prefix true
    then (do _prefix ← oid2tuple prefix true; ok (gather _prefix members empty_class))
    else err value_error

-- The loop over the bases.
unfoldable pub inherit : MibClass → List MibClass → MibClass
unfolding dict_update union
inherit c [] = c
inherit c (base ∷ bases) =
    inherit
      (record {
        sub_ids = dict_update c.sub_ids base.sub_ids;
        prefixes = base.prefixes ++ c.prefixes;
        updaters = union c.updaters base.updaters;
      })
      bases

unfoldable pub new_class : Option (List ℕ) → List Member → List MibClass → Result MibClass
unfolding own inherit
new_class prefix members bases = do c ← own prefix members; ok (inherit c bases)

-- `MIBTable(mib_cls)`
unfoldable pub table_of : MibClass → MibTable
table_of c = record { entries = c.sub_ids; prefixes = c.prefixes }
