-- ===== src/Contract.antt =====
-- The message between the checkout service and the payments service: `PaymentOrderMessage` of
-- events/payment-queue/payment-queue.interface.ts, which both services have, and the tests that their
-- schemas ask of texts. The texts' tests are zod's, and a parameter.
pub mod Publisher
pub mod Consumer
pub mod Accepted
pub mod Payable
pub mod Delivery
pub mod Messaging
mod Tests
use Prim.Native.String.{len}
use study_microsservices_nod.Base.{
  ℕ, ◌%◌, ◌*◌, String, Bool, true, false, ◌&&◌, ltb, leb, ◌==◌, Option, none, some, List, ◌≡◌,
  if◌then◌else◌,
}
use study_microsservices_nod.Payments.Money.{Number, finite, not_finite, cent}
use study_microsservices_nod.Checkout.Orders.{MessageItem}

-- `z.number().finite().int().positive()`: zod's integers are the safe ones.
abbrev pub is_quantity : ℕ → Bool
is_quantity n = ltb 0 n && leb n 9007199254740991

-- The metadata of a message.
pub record Metadata : Type 0 where
  pub service : String
  pub timestamp : String

-- A field that is absent is `none`. A time is an ISO text.
pub record PaymentOrderMessage : Type 0 where
  pub order_id : String
  pub user_id : String
  pub amount : Number
  pub items : List MessageItem
  pub payment_method : String
  pub description : Option String
  pub created_at : Option String
  pub metadata : Option Metadata

-- `z.uuid()`, `z.string().datetime({ offset: true })`, and `trim`; `Date.prototype.toISOString`.
pub record Texts : Type 0 where
  pub is_uuid : String → Bool
  pub is_datetime : String → Bool
  pub trim : String → String
  pub to_iso : ℕ → String

-- What is documented of them: an ISO text is a date and time, and not empty; trimming twice is
-- trimming once.
pub record IsTexts (texts : Texts) : Type 0 where
  pub iso_is_datetime : (time : ℕ) → texts.is_datetime (texts.to_iso time) ≡ true
  pub trim_again : (s : String) → texts.trim (texts.trim s) ≡ texts.trim s

-- `min(1).max(max)`, of a text.
abbrev pub has_length : ℕ → String → Bool
has_length max s = leb 1 (len s) && leb (len s) max
