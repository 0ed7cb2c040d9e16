-- ===== src/Checkout/Money.antt =====
-- checkout-service/src/cart/cart-money.ts, over the amounts of Payments.Money.
use study_microsservices_nod.Base.{ℕ, ◌+◌, ◌*◌, ◌/◌, List, [], ◌∷◌}
use study_microsservices_nod.Payments.Money.{Number, finite, not_finite, cent}

unfoldable pub to_cents : Number → ℕ
to_cents (finite v) = (v + cent / 2) / cent
to_cents not_finite = 0

-- So many cents, as a number.
abbrev pub of_cents : ℕ → Number
of_cents n = finite (n * cent)

unfoldable pub to_money : Number → Number
unfolding to_cents
to_money value = of_cents (to_cents value)

unfoldable pub multiply_money : Number → ℕ → Number
unfolding to_cents
multiply_money price quantity = of_cents (to_cents price * quantity)

-- The `reduce` of `sumMoney`, from the total so far.
unfoldable pub add_cents : ℕ → List Number → ℕ
unfolding to_cents
add_cents total [] = total
add_cents total (value ∷ values) = add_cents (total + to_cents value) values

unfoldable pub sum_money : List Number → Number
unfolding add_cents
sum_money values = of_cents (add_cents 0 values)
