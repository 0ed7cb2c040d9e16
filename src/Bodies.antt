-- ===== src/Bodies.antt =====
-- The bodies of requests, and what their schemas share: the gateway checks a body and sends on what
-- its schema makes of it, and the service checks that again. A field of a body is a text, a number or
-- something else; zod's tests of texts, `trim` and `toLowerCase` are parameters.
pub mod Gateway
pub mod Services
pub mod Agreement
pub mod Routes
pub mod Accounts
pub mod Prices
mod Tests
use Prim.Native.String.{len}
use study_microsservices_nod.Base.{
  ℕ, ◌*◌, ◌/◌, ◌%◌, String, Bool, true, false, ◌&&◌, ltb, leb, ◌==◌, ◌=ₛ◌, Option, none, some, List,
  [], ◌∷◌, any, Map, get, ◌≡◌, refl, if◌then◌else◌,
}

-- A number with at most four decimals, in ten-thousandths.
pub record Numeral : Type 0 where
  pub negative : Bool
  pub units : ℕ

pub data Field : Type 0 where
  string : String → Field
  number : Numeral → Field
  other : Field

-- The entries of a body that is an object.
abbrev pub Body : Type 0
Body = Map Field

infixl 5 ◌>>=◌ ◌>>◌
unfoldable pub ◌>>=◌ {ℓ κ} : {A : Type ℓ} {B : Type κ} → Option A → (A → Option B) → Option B
none >>= f = none
some a >>= f = f a

-- Inversion of a chain that was passed.
pub >>=-eq-some {ℓ κ} :
    {A : Type ℓ} {B : Type κ} (m : Option A) (f : A → Option B) {b : B}
    → (m >>= f) ≡ some b
    → (a : A) × (m ≡ some a) × (f a ≡ some b)
unfolding ◌>>=◌
>>=-eq-some none f h = cc
>>=-eq-some (some a) f h = (a, refl, h)

abbrev pub ◌>>◌ {ℓ} : {B : Type ℓ} → Option (Unit {0}) → Option B → Option B
m >> k = m >>= λ _. k

-- A test that must be passed.
unfoldable pub guard : Bool → Option (Unit {0})
guard true = some tt
guard false = none

pub guard_passed : (test : Bool) {u : Unit {0}} → guard test ≡ some u → test ≡ true
unfolding guard
guard_passed true h = refl
guard_passed false h = cc

-- `.strict()`: no key but these.
abbrev pub has_only : List String → Body → Bool
has_only keys [] = true
has_only keys ((key, field) ∷ body) = any (λ known. known =ₛ key) keys && has_only keys body

abbrev pub as_text : Option Field → Option String
as_text none = none
as_text (some (string s)) = some s
as_text (some (number n)) = none
as_text (some other) = none

abbrev pub as_number : Option Field → Option Numeral
as_number none = none
as_number (some (string s)) = none
as_number (some (number n)) = some n
as_number (some other) = none

-- `z.string()` and `z.number()`, of the field of a name.
unfoldable pub text_of : String → Body → Option String
text_of name body = as_text (get name body)

unfoldable pub number_of : String → Body → Option Numeral
number_of name body = as_number (get name body)

abbrev pub one : ℕ
one = 10000

abbrev pub max_safe_integer : ℕ
max_safe_integer = 9007199254740991

-- `.int()`
abbrev pub is_int : Numeral → Bool
is_int n = (n.units % one == 0) && leb n.units (max_safe_integer * one)

-- `.min(bound)`, for a bound of so many ten-thousandths.
abbrev pub is_at_least : ℕ → Numeral → Bool
is_at_least bound n = if n.negative then (n.units == 0) && (bound == 0) else leb bound n.units

abbrev pub natural : ℕ → Field
natural units = number (record { negative = false; units = units })

-- `z.uuid()`, `z.email()`, `trim` and `toLowerCase`.
pub record Texts : Type 0 where
  pub is_uuid : String → Bool
  pub is_email : String → Bool
  pub trim : String → String
  pub lower : String → String

-- What is documented of them: a second time they change nothing, and a trimmed text in lower case is
-- still trimmed.
pub record IsTexts (texts : Texts) : Type 0 where
  pub trim_again : (s : String) → texts.trim (texts.trim s) ≡ texts.trim s
  pub lower_again : (s : String) → texts.lower (texts.lower s) ≡ texts.lower s
  pub trim_lower :
      (s : String) → texts.trim (texts.lower (texts.trim s)) ≡ texts.lower (texts.trim s)

-- `min(1).max(max)`, of a text.
abbrev pub has_length : ℕ → String → Bool
has_length max s = leb 1 (len s) && leb (len s) max
