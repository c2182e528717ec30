-- ===== src/Prelude/Raise.antt =====
-- Python's exceptions as values: an operation that may raise returns a `Result`.
use mathlib.Core.Path.{◌≡◌, refl}
use mathlib.Core.Logic.{◌⊎◌, inl, inr}

-- The classes of exception that the code raises, catches or lets through. `handler_error` is any
-- other exception, raised by a handler of the MIB. `out_of_fuel` is no exception of Python: a loop of
-- the model ran out of rounds.
pub data Exn : Type 0 where
  struct_error value_error index_error key_error type_error attribute_error : Exn
  not_implemented_error unpack_error pack_error unsupported_pdu agent_error handler_error : Exn
  zero_division_error out_of_fuel : Exn

pub data Result {ℓ} (A : Type ℓ) : Type ℓ where
  ok : A → Result A
  err : Exn → Result A

infixl 5 ◌>>=◌
abbrev pub ◌>>=◌ {ℓ κ} : {A : Type ℓ} {B : Type κ} → Result A → (A → Result B) → Result B
err raised >>= next = err raised
ok value >>= next = next value

-- What comes out of a bind that did not raise has passed through both of its steps.
pub >>=-eq-ok {ℓ κ} :
    {A : Type ℓ} {B : Type κ} {out : B} (step : Result A) (next : A → Result B)
    → (step >>= next) ≡ ok out
    → (mid : A) × (step ≡ ok mid) × (next mid ≡ ok out)
>>=-eq-ok (err raised) next both = cc
>>=-eq-ok (ok mid) next both = (mid, refl, both)

pub Result-cases {ℓ} :
    {A : Type ℓ} (r : Result A) → ((a : A) × (r ≡ ok a)) ⊎ ((e : Exn) × (r ≡ err e))
Result-cases (ok a) = inl (a, refl)
Result-cases (err e) = inr (e, refl)

-- A step that cannot fail keeps the exception before it.
pub bind-ok-eq-err {ℓ κ} :
    {A : Type ℓ} {B : Type κ} (m : Result A) (f : A → B) (e : Exn)
    → (m >>= λ a. ok (f a)) ≡ err e
    → m ≡ err e
bind-ok-eq-err (ok a) f e h = cc
bind-ok-eq-err (err x) f e h = cc
