-- ===== src/Bodies/Agreement.antt =====
-- The two checks of a body one after the other: what the gateway sends on, and what the service makes
-- of it.
use Prim.Native.String.{len}
use study_microsservices_nod.Base.{
  ◌/◌, String, Bool, true, false, ◌&&◌, ◌||◌, leb, ◌=ₛ◌, Option, none, some, [], ◌∷◌, get, ◌≡◌,
  refl, sym, ◌∙◌, inl, inr, arith, eq_iff, Bool-cases,
}
use study_microsservices_nod.Bodies.{
  Numeral, string, number, Body, Texts, IsTexts, ◌>>=◌, ◌>>◌, guard, has_only, text_of, number_of,
  one, is_int, is_at_least, has_length,
}
use study_microsservices_nod.Bodies.Services
use study_microsservices_nod.Bodies.Gateway

false-true : false ≡ true → ⊥
false-true h = cc

-- A step that both checks begin with.
through {ℓ} :
    {A : Type 0} {C : Type ℓ} (o : Option A) (f : A → Option Body) (k : Body → Option C)
    (g : A → Option C)
    → ((a : A) → (f a >>= k) ≡ g a)
    → ((o >>= f) >>= k) ≡ (o >>= g)
unfolding ◌>>=◌
through none f k g h = refl
through (some a) f k g h = h a

through_guard {ℓ} :
    {C : Type ℓ} (test : Bool) (f : Option Body) (k : Body → Option C) (g : Option C)
    → (test ≡ true → (f >>= k) ≡ g)
    → ((guard test >> f) >>= k) ≡ (guard test >> g)
unfolding ◌>>=◌ guard
through_guard true f k g h = h refl
through_guard false f k g h = refl

-- The last test, which the gateway makes before it sends a body on.
through_last {ℓ} :
    {C : Type ℓ} (sent : Bool) (body : Body) (k : Body → Option C) (answer : Option C)
    → (sent ≡ false → answer ≡ none)
    → k body ≡ answer
    → ((guard sent >> some body) >>= k) ≡ answer
unfolding ◌>>=◌ guard
through_last true body k answer refused h = h
through_last false body k answer refused h = sym (refused refl)

guard-none {ℓ} : {C : Type ℓ} (f : Option C) {test : Bool} → test ≡ false → (guard test >> f) ≡ none
unfolding ◌>>=◌ guard
guard-none f h = rw h refl

module _ (texts : Texts) (laws : IsTexts texts) where
  open laws use {trim_again, lower_again, trim_lower}

  login_again :
      (email password : String)
      → let fits = texts.is_email (texts.lower (texts.trim email)) && leb 6 (len password) in
        Services.login_schema texts
          (("email", string (texts.lower (texts.trim email))) ∷ ("password", string password) ∷ [])
        ≡ (guard fits
            >> some (record { email = texts.lower (texts.trim email); password = password }))
  unfolding Services.login_schema ◌>>=◌ text_of get guard
  login_again email password = rw (trim_lower, lower_again) refl

  -- A login that passes the gateway is read by the users service as the login that was asked for.
  login_through :
      (body : Body)
      → (Gateway.login_schema texts body >>= Services.login_schema texts)
        ≡ Services.login_schema texts body
  unfolding Services.login_schema Gateway.login_schema
  login_through body = through_guard _ _ _ _ λ known. through _ _ _ _ λ email.
      through _ _ _ _ λ password. through_last _ _ _ _ (guard-none _) (login_again email password)

  register_again :
      (email password first_name last_name role : String)
      → Services.register_schema texts (
          ("email", string (texts.lower (texts.trim email)))
          ∷ ("password", string password)
          ∷ ("firstName", string (texts.trim first_name))
          ∷ ("lastName", string (texts.trim last_name))
          ∷ ("role", string role)
          ∷ [])
        ≡ Services.register_of texts email password first_name last_name role
  unfolding Services.register_schema Services.register_of ◌>>=◌ text_of get guard
  register_again email password first_name last_name role =
      rw (trim_lower, lower_again, trim_again first_name, trim_again last_name) refl

  register_refused :
      (email password first_name last_name role : String)
      → texts.is_email (texts.lower (texts.trim email))
          && leb 6 (len password)
          && has_length 100 (texts.trim first_name)
          && has_length 100 (texts.trim last_name)
          && ((role =ₛ "buyer") || (role =ₛ "seller"))
        ≡ false
      → Services.register_of texts email password first_name last_name role ≡ none
  unfolding Services.register_of ◌>>=◌ guard
  register_refused email password first_name last_name role h = ground arith

  -- A registration.
  register_through :
      (body : Body)
      → (Gateway.register_schema texts body >>= Services.register_schema texts)
        ≡ Services.register_schema texts body
  unfolding Services.register_schema Gateway.register_schema
  register_through body = through_guard _ _ _ _ λ known. through _ _ _ _ λ email.
      through _ _ _ _ λ password. through _ _ _ _ λ first_name. through _ _ _ _ λ last_name.
        through _ _ _ _ λ role.
          through_last _ _ _ _ (register_refused email password first_name last_name role)
            (register_again email password first_name last_name role)

  add_again :
      (product_id : String) (quantity : Numeral)
      → Services.add_cart_item_schema texts
          (("productId", string product_id) ∷ ("quantity", number quantity) ∷ [])
        ≡ (guard (texts.is_uuid product_id && (is_int quantity && is_at_least one quantity))
            >> some (record { product_id = product_id; quantity = quantity.units / one }))
  unfolding Services.add_cart_item_schema ◌>>=◌ text_of number_of get guard
  add_again product_id quantity = refl

  -- An item for the cart.
  add_item_through :
      (body : Body)
      → (Gateway.add_cart_item_schema texts body >>= Services.add_cart_item_schema texts)
        ≡ Services.add_cart_item_schema texts body
  unfolding Services.add_cart_item_schema Gateway.add_cart_item_schema
  add_item_through body = through_guard _ _ _ _ λ known. through _ _ _ _ λ product_id.
      through _ _ _ _
        λ quantity. through_last _ _ _ _ (guard-none _) (add_again product_id quantity)

  create_again :
      (name description : String) (price stock : Numeral)
      → Services.create_product_schema texts (
          ("name", string (texts.trim name))
          ∷ ("description", string (texts.trim description))
          ∷ ("price", number price)
          ∷ ("stock", number stock)
          ∷ [])
        ≡ Services.create_product_of texts name description price stock
  unfolding Services.create_product_schema Services.create_product_of ◌>>=◌ text_of number_of get
      guard
  create_again name description price stock = rw (trim_again name, trim_again description) refl

  create_refused :
      (name description : String) (price stock : Numeral)
      → has_length 255 (texts.trim name)
          && leb 1 (len (texts.trim description))
          && is_at_least 100 price
          && (is_int stock && is_at_least 0 stock)
        ≡ false
      → Services.create_product_of texts name description price stock ≡ none
  unfolding Services.create_product_of ◌>>=◌ guard
  create_refused name description price stock h = ground arith

  -- A product, of which the gateway does not ask that the price is in whole cents.
  create_product_through :
      (body : Body)
      → (Gateway.create_product_schema texts body >>= Services.create_product_schema texts)
        ≡ Services.create_product_schema texts body
  unfolding Services.create_product_schema Gateway.create_product_schema
  create_product_through body = through_guard _ _ _ _ λ known. through _ _ _ _ λ name.
      through _ _ _ _ λ description. through _ _ _ _ λ price. through _ _ _ _ λ stock.
        through_last _ _ _ _ (create_refused name description price stock)
          (create_again name description price stock)

  not_blank :
      (method : String) → Services.is_payment_method method ≡ true → leb 1 (len method) ≡ true
  not_blank method h = elim (Bool-cases ("credit_card" =ₛ method)) [
    | inl e ↦ rw⁻¹ ((eq_iff "credit_card" method).0 e) refl
    | inr a ↦ elim (Bool-cases ("debit_card" =ₛ method)) [
      | inl e ↦ rw⁻¹ ((eq_iff "debit_card" method).0 e) refl
      | inr b ↦ elim (Bool-cases ("pix" =ₛ method)) [
        | inl e ↦ rw⁻¹ ((eq_iff "pix" method).0 e) refl
        | inr c ↦ elim (Bool-cases ("boleto" =ₛ method)) [
          | inl e ↦ rw⁻¹ ((eq_iff "boleto" method).0 e) refl
          | inr d ↦ absurd (false-true (rw (a, b, c, d) at h))
        ]
      ]
    ]
  ]

  -- The service's schema of a checkout, with the blanks round the method removed.
  abbrev pub trimmed_checkout : Body → Option String
  trimmed_checkout body = do
    guard (has_only Services.checkout_keys body)
    method ← text_of "paymentMethod" body
    guard (Services.is_payment_method (texts.trim method))
    some (texts.trim method)

  checkout_again :
      (method : String)
      → Services.checkout_schema texts (("paymentMethod", string method) ∷ [])
        ≡ (guard (Services.is_payment_method method) >> some method)
  unfolding Services.checkout_schema ◌>>=◌ text_of get guard
  checkout_again method = refl

  checkout_refused :
      (method : String)
      → leb 1 (len method) ≡ false
      → (guard (Services.is_payment_method method) >> some method) ≡ none
  checkout_refused method blank = elim (Bool-cases (Services.is_payment_method method)) [
    | inl known ↦ absurd (false-true (sym blank ∙ not_blank method known))
    | inr unknown ↦ guard-none _ unknown
  ]

  -- A checkout.
  checkout_through :
      (body : Body)
      → (Gateway.checkout_schema texts body >>= Services.checkout_schema texts)
        ≡ trimmed_checkout body
  unfolding Services.checkout_schema Gateway.checkout_schema
  checkout_through body = through_guard _ _ _ _ λ known. through _ _ _ _ λ method.
      through_last _ _ _ _ (checkout_refused (texts.trim method))
        (checkout_again (texts.trim method))

  -- What the gateway sends on, the service reads as it would have read the body itself: a login, a
  -- registration, a product and an item; and a checkout as it would have read it with the blanks round
  -- the method removed.
  pub checked_twice :
      (body : Body)
      → ((Gateway.login_schema texts body >>= Services.login_schema texts)
          ≡ Services.login_schema texts body)
        × ((Gateway.register_schema texts body >>= Services.register_schema texts)
            ≡ Services.register_schema texts body)
        × ((Gateway.create_product_schema texts body >>= Services.create_product_schema texts)
            ≡ Services.create_product_schema texts body)
        × ((Gateway.add_cart_item_schema texts body >>= Services.add_cart_item_schema texts)
            ≡ Services.add_cart_item_schema texts body)
        × ((Gateway.checkout_schema texts body >>= Services.checkout_schema texts)
            ≡ trimmed_checkout body)
  checked_twice body = (
    login_through body,
    register_through body,
    create_product_through body,
    add_item_through body,
    checkout_through body,
  )
