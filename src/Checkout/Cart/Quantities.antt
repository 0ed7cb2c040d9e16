-- ===== src/Checkout/Cart/Quantities.antt =====
-- What a change of the items does to the carts: the items of a cart as a bag of products.
use mathlib.Core.Path.{subst}
use text.Mathlib.TextPositions.{eq_refl}
use study_microsservices_nod.Base.{
  ℕ, ◌+◌, ◌≡◌, ◌≢◌, refl, sym, ap, ◌∙◌, String, Bool, true, false, not, ◌=ₛ◌, if◌then◌else◌, List,
  [], ◌∷◌, ◌++◌, filter, All, arith, eq_iff,
}
use study_microsservices_nod.Checkout.Orders.{CartItem}
use study_microsservices_nod.Checkout.Store.{has_cart, update_where}

-- How many of a product are among some items.
abbrev pub quantity_in : String → List CartItem → ℕ
quantity_in product_id [] = 0
quantity_in product_id (item ∷ items) =
    (if item.product_id =ₛ product_id then item.quantity else 0) + quantity_in product_id items

quantity_in-append :
    (p : String) (xs ys : List CartItem)
    → quantity_in p (xs ++ ys) ≡ quantity_in p xs + quantity_in p ys
quantity_in-append p [] ys = omega arith
quantity_in-append p (x ∷ xs) ys = omega (arith, quantity_in-append p xs ys)

filter-append {ℓ} :
    {A : Type ℓ} (test : A → Bool) (xs ys : List A)
    → filter test (xs ++ ys) ≡ filter test xs ++ filter test ys
filter-append test [] ys = refl
filter-append test (x ∷ xs) ys = ground (arith, filter-append test xs ys)

-- From `items` to `more`, the cart gains `n` of a product, and no other cart changes.
pub record Gains (cart_id product_id : String) (n : ℕ) (items more : List CartItem) : Type 0 where
  pub elsewhere :
      (other : String)
      → other ≢ cart_id
      → filter (has_cart other) more ≡ filter (has_cart other) items
  pub here :
      (q : String)
      → quantity_in q (filter (has_cart cart_id) more)
        ≡ quantity_in q (filter (has_cart cart_id) items) + (if product_id =ₛ q then n else 0)

-- An item between others, in its cart and in the others.
at_cart :
    (before after : List CartItem) (item : CartItem) (c q : String)
    → item.cart_id ≡ c
    → quantity_in q (filter (has_cart c) (before ++ item ∷ after))
      ≡ quantity_in q (filter (has_cart c) (before ++ after))
        + (if item.product_id =ₛ q then item.quantity else 0)
at_cart before after item c q e =
    let same : (item.cart_id =ₛ c) ≡ true = ground (arith, eq_iff item.cart_id c) in
    rw
      (
        filter-append (has_cart c) before (item ∷ after),
        filter-append (has_cart c) before after,
        same,
      )
      (omega (
        arith,
        quantity_in-append q (filter (has_cart c) before) (item ∷ filter (has_cart c) after),
        quantity_in-append q (filter (has_cart c) before) (filter (has_cart c) after),
      ))

off_cart :
    (before after : List CartItem) (item : CartItem) (other : String)
    → other ≢ item.cart_id
    → filter (has_cart other) (before ++ item ∷ after) ≡ filter (has_cart other) (before ++ after)
off_cart before after item other h =
    let differs : (item.cart_id =ₛ other) ≡ false = ground (arith, eq_iff item.cart_id other) in
    rw
      (
        filter-append (has_cart other) before (item ∷ after),
        filter-append (has_cart other) before after,
        differs,
      )
      refl

append_nil : (xs : List CartItem) → xs ++ [] ≡ xs
append_nil [] = refl
append_nil (x ∷ xs) = ap (λ l. x ∷ l) (append_nil xs)

-- A new row.
pub insert-Gains :
    (items : List CartItem) (item : CartItem)
    → Gains item.cart_id item.product_id item.quantity items (items ++ item ∷ [])
insert-Gains items item = record {
  elsewhere = λ other h. rw (off_cart items [] item other h, append_nil items) refl;
  here = λ q. rw (at_cart items [] item item.cart_id q refl, append_nil items) refl;
}

-- A row that is replaced by one of the same cart and product, with more of it.
pub replace-Gains :
    (before after : List CartItem) (item more : CartItem) (n : ℕ)
    → more.cart_id ≡ item.cart_id
    → more.product_id ≡ item.product_id
    → more.quantity ≡ item.quantity + n
    → Gains item.cart_id item.product_id n (before ++ item ∷ after) (before ++ more ∷ after)
replace-Gains before after item more n same_cart same_product grown = record {
  elsewhere = λ other h.
      off_cart before after more other (λ e. h (e ∙ same_cart))
      ∙ sym (off_cart before after item other h);
  here = λ q.
      let old = at_cart before after item item.cart_id q refl in
      let new = at_cart before after more item.cart_id q same_cart in
      rw (new, old, same_product) (ground arith);
}

-- A row that is removed.
pub remove-Gains :
    (before after : List CartItem) (item : CartItem)
    → Gains item.cart_id item.product_id item.quantity (before ++ after) (before ++ item ∷ after)
remove-Gains before after item = record {
  elsewhere = λ other h. off_cart before after item other h;
  here = λ q. at_cart before after item item.cart_id q refl;
}

pub Gains-at :
    (c c' p p' : String) (n : ℕ) (items more : List CartItem)
    → c ≡ c'
    → p ≡ p'
    → Gains c p n items more
    → Gains c' p' n items more
Gains-at c c' p p' n items more e f g =
    subst (λ x. Gains x p' n items more) e (subst (λ x. Gains c x n items more) f g)

-- What an update and a removal by the id do to the list that holds the row.
update_unmatched {ℓ} :
    {R : Type ℓ} (test : R → Bool) (f : R → R) (rows : List R)
    → All (λ row. test row ≡ false) rows
    → update_where test f rows ≡ rows
update_unmatched test f [] h = refl
update_unmatched test f (row ∷ rows) (missed, h) = ground (arith, update_unmatched test f rows h)

-- The one row that an update or a removal by the id finds.
pub update_one-split :
    (before after : List CartItem) (item more : CartItem)
    → All (λ old. (old.id =ₛ item.id) ≡ false) before
    → All (λ old. (old.id =ₛ item.id) ≡ false) after
    → update_where (λ old. old.id =ₛ item.id) (λ old. more) (before ++ item ∷ after)
      ≡ before ++ more ∷ after
update_one-split [] after item more h k =
    rw (eq_refl item.id, update_unmatched (λ old. old.id =ₛ item.id) (λ old. more) after k) refl
update_one-split (row ∷ before) after item more (missed, h) k =
    rw (missed, update_one-split before after item more h k) refl

keep_unmatched :
    (rows : List CartItem) (id : String)
    → All (λ old. (old.id =ₛ id) ≡ false) rows
    → filter (λ old. not (old.id =ₛ id)) rows ≡ rows
keep_unmatched [] id h = refl
keep_unmatched (row ∷ rows) id (missed, h) = rw (missed, keep_unmatched rows id h) refl

pub remove_one-split :
    (before after : List CartItem) (item : CartItem)
    → All (λ old. (old.id =ₛ item.id) ≡ false) before
    → All (λ old. (old.id =ₛ item.id) ≡ false) after
    → filter (λ old. not (old.id =ₛ item.id)) (before ++ item ∷ after) ≡ before ++ after
remove_one-split [] after item h k = rw (eq_refl item.id, keep_unmatched after item.id k) refl
remove_one-split (row ∷ before) after item (missed, h) k =
    rw (missed, remove_one-split before after item h k) refl
