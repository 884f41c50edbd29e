-- ===== src/Database/Results.antt =====
-- Calls that return a value or throw, outside a transaction.
use public_parks.Database.{Result, ok, err}
use public_parks.Prelude.{Option, none, some, ◌≡◌, ◌⊎◌, inl, inr, refl}
use public_parks.Errors.{Exception}

-- The rest of a function after a call: an exception skips it.
abbrev pub and_then {ℓ κ} : {A : Type ℓ} {B : Type κ} → Result A → (A → Result B) → Result B
and_then (ok a) f = f a
and_then (err e) f = err e

-- The rest of a method after a call that may change the state, and keeps what it changed when it
-- throws.
abbrev pub then_call {ℓ κ ι} :
    {A : Type ℓ} {B : Type κ} {S : Type ι} → Result A × S → (A → S → Result B × S) → Result B × S
then_call (ok a, s) f = f a s
then_call (err e, s) f = (err e, s)

abbrev pub map_result {ℓ κ} : {A : Type ℓ} {B : Type κ} → (A → B) → Result A → Result B
map_result f (ok a) = ok (f a)
map_result f (err e) = err e

-- What a parser that returns `undefined` or throws gives to a caller that throws `e` in both cases.
abbrev pub or_err {ℓ} : {A : Type ℓ} → Exception → Option A → Result A
or_err e (some a) = ok a
or_err e none = err e

pub Result-cases {ℓ} :
    {A : Type ℓ} (out : Result A) → ((a : A) × (out ≡ ok a)) ⊎ ((e : Exception) × (out ≡ err e))
Result-cases (ok a) = inl (a, refl)
Result-cases (err e) = inr (e, refl)
