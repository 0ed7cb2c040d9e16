-- ===== src/Payments/Money.antt =====
-- payments-service/src/payments/payment-money.ts. A finite amount is a whole number of hundredths of a
-- cent, so that rounding to cents shows; amounts are not negative, and small enough that a double
-- holds their cents exactly.
use study_microsservices_nod.Base.{ℕ, ◌+◌, ◌*◌, ◌/◌}

pub data Number : Type 0 where
  finite : ℕ → Number
  not_finite : Number

-- The hundredths of a cent that make one.
abbrev pub cent : ℕ
cent = 100

-- `Math.round(parsed * CENTS)`, and 0 for `NaN` and the infinities.
unfoldable pub to_cents : Number → ℕ
to_cents (finite v) = (v + cent / 2) / cent
to_cents not_finite = 0

unfoldable pub to_money : Number → Number
unfolding to_cents
to_money v = finite (to_cents v * cent)
