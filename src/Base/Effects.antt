-- ===== src/Base/Effects.antt =====
-- An `async` function: it reads and changes the state of its process and its environment, and
-- settles with a value or with what was thrown. What was written before a throw stays written.
use Prim.Native.Nat.{ℕ}
use Prim.Native.String.{String}
use mathlib.Core.Path.{◌≡◌, refl}
use mathlib.Core.Bool.{Bool, true, false}
use mathlib.Core.Logic.{◌⊎◌, inl, inr}
use mathlib.Core.Option.{Option, none, some}
use study_microsservices_nod.Base.Values.{Value}

-- What is thrown: `new Error(message)`, the error of a timer of so many milliseconds, a Nest
-- `HttpException` with its status and response, a TypeORM `QueryFailedError` with the driver's code,
-- or an error class of the program.
pub data Error : Type 0 where
  plain : String → Error
  timed_out : ℕ → Error
  http : ℕ → Value → Error
  query_failed : String → Error
  product_not_found : String → Error
  products_service_unavailable : Error

pub data Result {ℓ} (A : Type ℓ) : Type ℓ where
  ok : A → Result A
  err : Error → Result A

abbrev pub Action : Type 0 → Type 0 → Type 0
Action S A = S → Result A × S

module _ {S A : Type 0} where
  abbrev pub pure : A → Action S A
  pure a s = (ok a, s)

  -- `throw error`
  abbrev pub raise : Error → Action S A
  raise e s = (err e, s)

  abbrev pub gets : (S → A) → Action S A
  gets f s = (ok (f s), s)

  -- `try { m } catch (error) { h(error) }`, by how `m` has settled.
  abbrev pub recover : (Error → Action S A) → Result A × S → Result A × S
  recover h (ok a, s) = (ok a, s)
  recover h (err e, s) = h e s

  abbrev pub try_catch : Action S A → (Error → Action S A) → Action S A
  try_catch m h s = recover h (m s)

  -- A lookup that found nothing is the caller's error.
  abbrev pub or_raise : Option A → Error → Action S A
  or_raise none e = raise e
  or_raise (some a) e = pure a

module _ {S : Type 0} where
  abbrev pub modify : (S → S) → Action S (Unit {0})
  modify f s = (ok tt, f s)

  -- `if (test) throw error`
  abbrev pub raise_if : Bool → Error → Action S (Unit {0})
  raise_if true e s = (err e, s)
  raise_if false e s = (ok tt, s)

module _ {S A B : Type 0} where
  -- What follows an `await`, by how the awaited promise has settled.
  abbrev pub continue : (A → Action S B) → Result A × S → Result B × S
  continue f (ok a, s) = f a s
  continue f (err e, s) = (err e, s)

infixl 5 ◌>>=◌ ◌>>◌
abbrev pub ◌>>=◌ : {S A B : Type 0} → Action S A → (A → Action S B) → Action S B
◌>>=◌ m f s = continue f (m s)

abbrev pub ◌>>◌ : {S B : Type 0} → Action S (Unit {0}) → Action S B → Action S B
m >> k = m >>= λ _. k

-- The two ways in which a call can settle, to split on.
pub Result-cases {ℓ} :
    {A : Type ℓ} (r : Result A) → ((a : A) × (r ≡ ok a)) ⊎ ((e : Error) × (r ≡ err e))
Result-cases (ok a) = inl (a, refl)
Result-cases (err e) = inr (e, refl)

-- A call that succeeded, and one that failed, before another.
pub bind_ok :
    {S A B : Type 0} (call : Action S A) (next : A → Action S B) (s : S) (a : A)
    → (call s).0 ≡ ok a
    → (call >>= next) s ≡ next a (call s).1
bind_ok call next s a h = rw h refl

pub bind_err :
    {S A B : Type 0} (call : Action S A) (next : A → Action S B) (s : S) (e : Error)
    → (call s).0 ≡ err e
    → (call >>= next) s ≡ (err e, (call s).1)
bind_err call next s e h = rw h refl
