-- ===== src/Util/Text.antt =====
-- src/ax_interface/util.py: OIDs from strings. A string is the list of its code points. Of the
-- decimal digits that Python's `\d` and `int` admit, only the ASCII ones are modelled.
use sonic_snmpagent.Prelude.{
  ℕ, ◌+◌, ◌-◌, ◌*◌, ◌≡◌, refl, arith, List, [], ◌∷◌, ◌++◌, map, All, Result, ok, err, value_error,
  Bool, true, false, ◌&&◌, leb, ◌==◌, if◌then◌else◌,
}
use sonic_snmpagent.Constants.{internet_prefix}

abbrev pub dot : ℕ
dot = 46

unfoldable pub cons_first : ℕ → List (List ℕ) → List (List ℕ)
cons_first c [] = (c ∷ []) ∷ []
cons_first c (piece ∷ pieces) = (c ∷ piece) ∷ pieces

-- `text.split('.')`
unfoldable pub split : List ℕ → List (List ℕ)
unfolding cons_first
split [] = [] ∷ []
split (c ∷ cs) = if c == dot then [] ∷ split cs else cons_first c (split cs)

unfoldable pub is_digit : ℕ → Bool
is_digit c = leb 48 c && leb c 57

unfoldable pub all_digits : List ℕ → Bool
unfolding is_digit
all_digits [] = true
all_digits (c ∷ cs) = is_digit c && all_digits cs

-- `\d+`
unfoldable pub is_group : List ℕ → Bool
unfolding all_digits
is_group [] = false
is_group (c ∷ cs) = all_digits (c ∷ cs)

unfoldable pub all_groups : List (List ℕ) → Bool
unfolding is_group
all_groups [] = true
all_groups (piece ∷ pieces) = is_group piece && all_groups pieces

-- `text[1:]` if it starts with a dot
unfoldable pub strip_dot : List ℕ → List ℕ
strip_dot [] = []
strip_dot (c ∷ cs) = if c == dot then cs else c ∷ cs

-- The whole string matches `((\d+\.)*\d+)`, behind `\.?` if a leading dot is allowed.
unfoldable pub is_valid_oid : List ℕ → Bool → Bool
unfolding all_groups strip_dot
is_valid_oid oid_str dot_prefix =
    all_groups (split (if dot_prefix then strip_dot oid_str else oid_str))

-- `int(piece)` of digits
unfoldable pub int_from : ℕ → List ℕ → ℕ
int_from n [] = n
int_from n (c ∷ cs) = int_from (n * 10 + (c - 48)) cs

unfoldable pub starts_with_dot : List ℕ → Bool
starts_with_dot [] = false
starts_with_dot (c ∷ cs) = c == dot

unfoldable pub oid2tuple : List ℕ → Bool → Result (List ℕ)
unfolding is_valid_oid int_from strip_dot starts_with_dot
oid2tuple [] dot_prefix = ok []
oid2tuple (c ∷ cs) dot_prefix =
    if is_valid_oid (c ∷ cs) dot_prefix
    then (if dot_prefix
        then (if starts_with_dot (c ∷ cs)
            then ok (map (int_from 0) (split cs))
            else ok (internet_prefix ++ map (int_from 0) (split (c ∷ cs))))
        else ok (map (int_from 0) (split (c ∷ cs))))
    else err value_error

-- `'.'.join(pieces)`
unfoldable pub join : List (List ℕ) → List ℕ
join [] = []
join (piece ∷ []) = piece
join (piece ∷ next ∷ pieces) = piece ++ (dot ∷ join (next ∷ pieces))

abbrev pub IsGroup : List ℕ → Type 0
IsGroup piece = is_group piece ≡ true

digit_step :
    (c : ℕ) (cs : List ℕ)
    → all_digits (c ∷ cs) ≡ true
    → ((c == dot) ≡ false) × (all_digits cs ≡ true)
unfolding all_digits is_digit
digit_step c cs h = grind arith

split-digits : (cs : List ℕ) → all_digits cs ≡ true → split cs ≡ cs ∷ []
unfolding split cons_first
split-digits [] h = refl
split-digits (c ∷ cs) h = let (ne, hs) = digit_step c cs h in rw (ne, split-digits cs hs) refl

split-digits_dot :
    (cs more : List ℕ) → all_digits cs ≡ true → split (cs ++ (dot ∷ more)) ≡ cs ∷ split more
unfolding split cons_first
split-digits_dot [] more h = refl
split-digits_dot (c ∷ cs) more h =
    let (ne, hs) = digit_step c cs h in rw (ne, split-digits_dot cs more hs) refl

group_digits : (piece : List ℕ) → IsGroup piece → all_digits piece ≡ true
unfolding is_group
group_digits [] h = cc
group_digits (c ∷ cs) h = h

split-join :
    (piece : List ℕ) (pieces : List (List ℕ))
    → IsGroup piece
    → All IsGroup pieces
    → split (join (piece ∷ pieces)) ≡ piece ∷ pieces
unfolding join
split-join piece [] h w = split-digits piece (group_digits piece h)
split-join piece (next ∷ pieces) h (g, w) =
    rw
      (
        split-digits_dot piece (join (next ∷ pieces)) (group_digits piece h),
        split-join next pieces g w,
      )
      refl

all_groups_lem : (pieces : List (List ℕ)) → All IsGroup pieces → all_groups pieces ≡ true
unfolding all_groups
all_groups_lem [] w = refl
all_groups_lem (piece ∷ pieces) (h, w) = rw (h, all_groups_lem pieces w) refl

-- A string of digits starts with a digit, which is no dot.
join_first :
    (piece : List ℕ) (pieces : List (List ℕ))
    → IsGroup piece
    → (c : ℕ) × (cs : List ℕ) × (join (piece ∷ pieces) ≡ c ∷ cs) × ((c == dot) ≡ false)
unfolding join is_group
join_first [] pieces h = cc
join_first (c ∷ cs) [] h = (c, cs, refl, (digit_step c cs h).0)
join_first (c ∷ cs) (next ∷ pieces) h = (c, _, refl, (digit_step c cs h).0)

-- Groups of digits joined by dots are read as their numbers, where no prefix is allowed and behind
-- a leading dot where one is, and behind the internet prefix where the leading dot is missing.
pub oid2tuple-join :
    (piece : List ℕ) (pieces : List (List ℕ))
    → IsGroup piece
    → All IsGroup pieces
    → (oid2tuple (join (piece ∷ pieces)) false ≡ ok (map (int_from 0) (piece ∷ pieces)))
      × (oid2tuple (dot ∷ join (piece ∷ pieces)) true ≡ ok (map (int_from 0) (piece ∷ pieces)))
      × (oid2tuple (join (piece ∷ pieces)) true
          ≡ ok (internet_prefix ++ map (int_from 0) (piece ∷ pieces)))
oid2tuple-join piece pieces h w =
    let (c, cs, e, ne) = join_first piece pieces h in
    let parts : split (c ∷ cs) ≡ piece ∷ pieces = rw (← e) (split-join piece pieces h w) in
    let valid : all_groups (piece ∷ pieces) ≡ true = all_groups_lem (piece ∷ pieces) (h, w) in
    unfold oid2tuple is_valid_oid strip_dot starts_with_dot in
    rw e (rw (parts, valid) refl, rw (parts, valid) refl, rw (ne, parts, valid) refl)
