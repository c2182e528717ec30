-- ===== src/Dict.antt =====
-- A Python dict in insertion order, with the equality of its keys as an instance.
use sonic_snmpagent.Prelude.{
  ℕ, ◌≡◌, inl, inr, refl, ap, ◌↔◌, List, [], ◌∷◌, Option, none, some, Bool, true, false, ◌&&◌, ◌==◌,
  arith, if◌then◌else◌, Result, ok, err, key_error, Bool-cases, ==→eq, eq→==,
}

pub record Eq {ℓ} (A : Type ℓ) : Type ℓ where
  pub test : A → A → Bool
  pub test_iff : (a b : A) → (test a b ≡ true) ↔ (a ≡ b)

infix 50 ◌≟◌
abbrev pub ◌≟◌ {ℓ} : {A : Type ℓ} ⦃e : Eq A⦄ → A → A → Bool
◌≟◌ ⦃e⦄ = e.test

instance abbrev pub nat_eq : Eq ℕ
nat_eq = record { test = λ a b. a == b; test_iff = λ a b. (==→eq a b, eq→== a b) }

abbrev pub list_beq : List ℕ → List ℕ → Bool
list_beq [] [] = true
list_beq [] (y ∷ ys) = false
list_beq (x ∷ xs) [] = false
list_beq (x ∷ xs) (y ∷ ys) = x == y && list_beq xs ys

pub list_beq_sound : (xs ys : List ℕ) → list_beq xs ys ≡ true → xs ≡ ys
list_beq_sound [] [] h = refl
list_beq_sound [] (y ∷ ys) h = cc
list_beq_sound (x ∷ xs) [] h = cc
list_beq_sound (x ∷ xs) (y ∷ ys) h = grind (arith, list_beq_sound xs ys)

pub list_beq_refl : (xs : List ℕ) → list_beq xs xs ≡ true
list_beq_refl [] = refl
list_beq_refl (x ∷ xs) = grind (arith, list_beq_refl xs)

instance abbrev pub list_eq : Eq (List ℕ)
list_eq = record {
  test = list_beq;
  test_iff = λ xs ys. (list_beq_sound xs ys, λ e. rw e (list_beq_refl ys));
}

abbrev pub option_beq : Option ℕ → Option ℕ → Bool
option_beq none none = true
option_beq none (some b) = false
option_beq (some a) none = false
option_beq (some a) (some b) = a == b

pub option_beq_sound : (a b : Option ℕ) → option_beq a b ≡ true → a ≡ b
option_beq_sound none none h = refl
option_beq_sound none (some b) h = cc
option_beq_sound (some a) none h = cc
option_beq_sound (some a) (some b) h = ap (λ n. some n) (==→eq a b h)

pub option_beq_refl : (a : Option ℕ) → option_beq a a ≡ true
option_beq_refl none = refl
option_beq_refl (some a) = eq→== a a refl

instance abbrev pub option_eq : Eq (Option ℕ)
option_eq = record {
  test = option_beq;
  test_iff = λ a b. (option_beq_sound a b, λ e. rw e (option_beq_refl b));
}

abbrev pub Dict {ℓ κ} : Type ℓ → Type κ → Type (ℓ ⊔ κ)
Dict K V = List (K × V)

abbrev pub or_key_error {ℓ} : {V : Type ℓ} → Option V → Result V
or_key_error none = err key_error
or_key_error (some v) = ok v

module _ {ℓ κ} {K : Type ℓ} {V : Type κ} where
  -- `d.keys()`
  abbrev pub keys : Dict K V → List K
  keys [] = []
  keys (j ∷ d) = j.0 ∷ keys d

module _ {ℓ κ} {K : Type ℓ} {V : Type κ} ⦃e : Eq K⦄ where
  -- `d.get(k)`
  abbrev pub find : K → Dict K V → Option V
  find k [] = none
  find k (j ∷ d) = if k ≟ j.0 then some j.1 else find k d

  -- `d[k]`
  abbrev pub item : K → Dict K V → Result V
  item k d = or_key_error (find k d)

  -- `k in d`
  abbrev pub contains : K → Dict K V → Bool
  contains k d = elim (find k d) [ none ↦ false | some _ ↦ true ]

  -- `d[k] = v`
  abbrev pub set : K → V → Dict K V → Dict K V
  set k v [] = (k, v) ∷ []
  set k v (j ∷ d) = if k ≟ j.0 then (j.0, v) ∷ d else j ∷ set k v d

  -- `d.update(new)`
  abbrev pub update : Dict K V → Dict K V → Dict K V
  update d [] = d
  update d (j ∷ new) = update (set j.0 j.1 d) new

  pub find-set_self : (k : K) (v : V) (d : Dict K V) → find k (set k v d) ≡ some v
  find-set_self k v [] = rw ((e.test_iff k k).1 refl) refl
  find-set_self k v (j ∷ d) = elim (Bool-cases (k ≟ j.0)) [
    | inl same ↦ rw (same, same) refl
    | inr other ↦ rw (other, other) (find-set_self k v d)
  ]

  pub find-set_ne :
      (j k : K) (v : V) (d : Dict K V) → (j ≟ k) ≡ false → find j (set k v d) ≡ find j d
  find-set_ne j k v [] h = rw h refl
  find-set_ne j k v ((i, w) ∷ d) h = elim (Bool-cases (k ≟ i)) [
    | inl same ↦ let h' : (j ≟ i) ≡ false = rw (← (e.test_iff k i).0 same) h in rw (same, h') refl
    | inr other ↦ elim (Bool-cases (j ≟ i)) [
      | inl here ↦ rw (other, here) refl
      | inr past ↦ rw (other, past) (find-set_ne j k v d h)
    ]
  ]

  pub find-set :
      (j k : K) (v : V) (d : Dict K V) → find j (set k v d) ≡ (if j ≟ k then some v else find j d)
  find-set j k v d = elim (Bool-cases (j ≟ k)) [
    | inl same ↦ rw (same, (e.test_iff j k).0 same) (find-set_self k v d)
    | inr other ↦ rw other (find-set_ne j k v d other)
  ]

  pub item_lem : (k : K) (v : V) (d : Dict K V) → find k d ≡ some v → item k d ≡ ok v
  item_lem k v d h = ap or_key_error h

or_key_error-ok {ℓ} : {V : Type ℓ} (o : Option V) (v : V) → or_key_error o ≡ ok v → o ≡ some v
or_key_error-ok none v h = absurd cc
or_key_error-ok (some w) v h = cc

module _ {ℓ κ} {K : Type ℓ} {V : Type κ} ⦃e : Eq K⦄ where
  pub item-ok : (k : K) (v : V) (d : Dict K V) → item k d ≡ ok v → find k d ≡ some v
  item-ok k v d h = or_key_error-ok (find k d) v h
