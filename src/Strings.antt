-- ===== src/Strings.antt =====
-- What the MIBs of src/sonic_ax_impl use of Python's strings. A string is the list of its code
-- points. Of the decimal digits that `int` admits, only the ASCII ones are modelled.
use Prim.Native.Char.{code}
use Prim.Native.String.{String}
use sonic_snmpagent.Prelude.{
  Bool-cases, inl, inr, zero, suc, ◌+◌, ◌%◌, ◌/◌, ℕ, ◌≡◌, refl, arith, List, [], ◌∷◌, ◌++◌, Option,
  none, some, Result, ok, err, value_error, Bool, true, false, ◌&&◌, ◌||◌, ◌==◌, if◌then◌else◌, ◌≢◌,
  All, reverse, leb,
}
use sonic_snmpagent.Util.Text.{is_digit, int_from, cons_first}

abbrev pub Text : Type 0
Text = List ℕ

abbrev pub codes : String → Text
codes String.[] = []
codes (String.◌∷◌ c s) = code c ∷ codes s

abbrev pub colon : ℕ
colon = 58

abbrev pub slash : ℕ
slash = 47

abbrev pub comma : ℕ
comma = 44

abbrev pub vbar : ℕ
vbar = 124

-- `text.split(sep)` for a separator of one character
unfoldable pub split_at : ℕ → Text → List Text
unfolding cons_first
split_at sep [] = [] ∷ []
split_at sep (c ∷ cs) = if c == sep then [] ∷ split_at sep cs else cons_first c (split_at sep cs)

-- What `str.strip` takes off: blanks and the control characters that count as such.
unfoldable pub is_blank : ℕ → Bool
is_blank c = c == 32 || (leb 9 c && leb c 13 || leb 28 c && leb c 31)

unfoldable pub skip_blanks : Text → Text
unfolding is_blank
skip_blanks [] = []
skip_blanks (c ∷ cs) = if is_blank c then skip_blanks cs else c ∷ cs

unfoldable pub strip : Text → Text
unfolding skip_blanks
strip text = reverse (skip_blanks (reverse (skip_blanks text)))

unfoldable pub skip_plus : Text → Text
skip_plus [] = []
skip_plus (c ∷ cs) = if c == 43 then cs else c ∷ cs

unfoldable pub with_digit : ℕ → Option Text → Option Text
with_digit c none = none
with_digit c (some digits) = some (c ∷ digits)

-- The digits of a number, which may have single underscores between them.
unfoldable pub scan : Bool → Text → Option Text
unfolding is_digit with_digit
scan false [] = none
scan true [] = some []
scan after_digit (c ∷ cs) =
    let rest = scan true cs in
    let behind = scan false cs in
    if is_digit c then with_digit c rest else if c == 95 && after_digit then behind else none

unfoldable pub number_of : Option Text → Result ℕ
unfolding int_from
number_of none = err value_error
number_of (some digits) = ok (int_from 0 digits)

-- `int(text)`. A negative number is taken for no number: the texts of the databases that the code
-- reads as numbers are counters, positions, indices and speeds.
unfoldable pub to_int : Text → Result ℕ
unfolding strip skip_plus scan number_of
to_int text = number_of (scan false (skip_plus (strip text)))

-- `str(n)`: the digits from the last on, for fewer than `fuel` of them.
unfoldable pub digits_from : ℕ → ℕ → Text → Text
digits_from zero n text = text
digits_from (suc fuel) n text =
    let rest = digits_from fuel (n / 10) ((48 + n % 10) ∷ text) in
    if n / 10 == 0 then (48 + n % 10) ∷ text else rest

unfoldable pub str : ℕ → Text
unfolding digits_from
str n = digits_from (suc n) n []

-- `text.startswith(start)`
unfoldable pub starts_with : Text → Text → Bool
starts_with [] text = true
starts_with (m ∷ start) [] = false
starts_with (m ∷ start) (c ∷ text) = m == c && starts_with start text

-- `c in text`
unfoldable pub contains : ℕ → Text → Bool
contains c [] = false
contains c (d ∷ text) = c == d || contains c text

-- `text.split(sep, maxsplit=n)[-1]` for a separator of one character
unfoldable pub after : ℕ → Text → Option Text
after sep [] = none
after sep (c ∷ cs) = let rest = after sep cs in if c == sep then some cs else rest

unfoldable pub last_part : ℕ → ℕ → Text → Text
unfolding after
last_part sep zero text = text
last_part sep (suc n) text = elim (after sep text) [
  | none ↦ text
  | some rest ↦ last_part sep n rest
]

abbrev pub IsFree : ℕ → Text → Type 0
IsFree sep text = All (λ c. c ≢ sep) text

pub split_at-free : (sep : ℕ) (text : Text) → IsFree sep text → split_at sep text ≡ text ∷ []
unfolding split_at cons_first
split_at-free sep [] h = refl
split_at-free sep (c ∷ cs) (ne, h) = grind (arith, split_at-free sep cs h)

pub split_at-append :
    (sep : ℕ) (text more : Text)
    → IsFree sep text
    → split_at sep (text ++ (sep ∷ more)) ≡ text ∷ split_at sep more
unfolding split_at cons_first
split_at-append sep [] more h = ground arith
split_at-append sep (c ∷ cs) more (ne, h) = grind (arith, split_at-append sep cs more h)

pub IsFree-contains : (sep : ℕ) (text : Text) → contains sep text ≡ false → IsFree sep text
unfolding contains
IsFree-contains sep [] h = tt
IsFree-contains sep (c ∷ cs) h = elim (Bool-cases (sep == c)) [
  | inl e ↦ absurd (ground arith)
  | inr e ↦ (λ same. ground arith, IsFree-contains sep cs (ground arith))
]
