-- ===== src/Mibs/Effect.antt =====
-- Loops over a state: a step returns or raises, and leaves the state as far as it has come.
use mathlib.Core.Path.{subst}
use sonic_snmpagent.Prelude.{◌≡◌, ap, refl, All, List, [], ◌∷◌, Result, ok, err}

abbrev pub Effect {ℓ} : Type ℓ → Type ℓ
Effect S = Result (Unit {ℓ}) × S

module _ {ℓ} {S : Type ℓ} where
  unfoldable pub and_then : Effect S → (S → Effect S) → Effect S
  and_then (err e, s) next = (err e, s)
  and_then (ok done, s) next = next s

  -- A value that may raise, and the rest of the step.
  unfoldable pub with_result {κ} : {A : Type κ} → Result A → S → (A → Effect S) → Effect S
  with_result (err e) s next = (err e, s)
  with_result (ok a) s next = next a

  unfoldable pub for_each {κ} : {A : Type κ} → (A → S → Effect S) → List A → S → Effect S
  unfolding and_then
  for_each step [] s = (ok tt, s)
  for_each step (a ∷ more) s = and_then (step a s) (λ s'. for_each step more s')

module _ {ℓ} {S : Type ℓ} (P : S → Type ℓ) where
  -- A step keeps a property of the state if it returns.
  abbrev pub Keeps : Effect S → Type ℓ
  Keeps (err e, s) = Unit {ℓ}
  Keeps (ok done, s) = P s

  pub and_then-Keeps :
      (o : Effect S) (next : S → Effect S)
      → Keeps o
      → ((s : S) → P s → Keeps (next s))
      → Keeps (and_then o next)
  unfolding and_then
  and_then-Keeps (err e, s) next h f = tt
  and_then-Keeps (ok done, s) next h f = f s h

  pub with_result-Keeps {κ} :
      {A : Type κ} (a : Result A) (s : S) (next : A → Effect S)
      → ((x : A) → a ≡ ok x → Keeps (next x))
      → Keeps (with_result a s next)
  unfolding with_result
  with_result-Keeps (err e) s next f = tt
  with_result-Keeps (ok x) s next f = f x refl

  pub for_each-Keeps {κ} :
      {A : Type κ} (step : A → S → Effect S) (items : List A) (s : S)
      → ((a : A) (s' : S) → P s' → Keeps (step a s'))
      → P s
      → Keeps (for_each step items s)
  unfolding for_each
  for_each-Keeps step [] s f h = h
  for_each-Keeps step (a ∷ more) s f h =
      and_then-Keeps (step a s) (λ s'. for_each step more s') (f a s h)
        (λ s' p. for_each-Keeps step more s' f p)

  -- The same for a step that needs something of its item.
  pub for_each-All-Keeps {κ μ} :
      {A : Type κ} (Q : A → Type μ) (step : A → S → Effect S) (items : List A) (s : S)
      → All Q items
      → ((a : A) (s' : S) → Q a → P s' → Keeps (step a s'))
      → P s
      → Keeps (for_each step items s)
  unfolding for_each
  for_each-All-Keeps Q step [] s q f h = h
  for_each-All-Keeps Q step (a ∷ more) s (here, q) f h =
      and_then-Keeps (step a s) (λ s'. for_each step more s') (f a s here h)
        (λ s' p. for_each-All-Keeps Q step more s' q f p)

  -- A property that the last step establishes.
  pub and_then_last :
      (o : Effect S) (next : S → Effect S) → ((s : S) → Keeps (next s)) → Keeps (and_then o next)
  unfolding and_then
  and_then_last (err e, s) next f = tt
  and_then_last (ok done, s) next f = f s

  pub Keeps-ok : (o : Effect S) (s : S) → Keeps o → o ≡ (ok tt, s) → P s
  Keeps-ok (err e, s') s k h = absurd (cc (ap (λ p. p.0) h))
  Keeps-ok (ok done, s') s k h = subst P (ap (λ p. p.1) h) k

-- A step that turns one property into another.
pub and_then_both {ℓ} :
    {S : Type ℓ} (P Q : S → Type ℓ) (o : Effect S) (next : S → Effect S)
    → Keeps P o
    → ((s : S) → P s → Keeps Q (next s))
    → Keeps Q (and_then o next)
unfolding and_then
and_then_both P Q (err e, s) next h f = tt
and_then_both P Q (ok done, s) next h f = f s h
