-- ===== src/Bodies/Prices.antt =====
-- What the products are that the route of products-service/src/products/products.controller.ts creates.
use study_microsservices_nod.Base.{
  ℕ, ◌%◌, ◌≤◌, String, true, ◌==◌, some, [], ◌∷◌, All, All-append, Error, ◌≡◌, ap, arith, inl, inr,
  Option-cases, Bool-cases,
}
use study_microsservices_nod.Bodies.{
  Numeral, Body, Texts, >>=-eq-some, guard_passed, is_at_least, has_length,
}
use study_microsservices_nod.Bodies.Services.{create_product_of, create_product_schema}
use study_microsservices_nod.Bodies.Routes as Routes
use study_microsservices_nod.Users.Auth.{AuthenticatedUser}
use study_microsservices_nod.Products.{
  Product, CreateProductInput, ProductsRepository, IsRepository, new_product, is_seller, create,
  create_as,
}

-- A price of at least one cent, in whole cents, and a name of 1 to 255 characters.
abbrev pub IsSound : ℕ → String → Type 0
IsSound price name = (100 ≤ price) × (price % 100 ≡ 0) × (has_length 255 name ≡ true)

abbrev pub IsOffered : Product → Type 0
IsOffered product = IsSound product.price product.name

some_input : {a b : CreateProductInput} → some a ≡ some b → a ≡ b
some_input h = cc

cents : (price : Numeral) → is_at_least 100 price ≡ true → 100 ≤ price.units
cents price h = ground arith

module _ (texts : Texts) where
  create_product_of-IsSound :
      (name description : String) (price stock : Numeral) (input : CreateProductInput)
      → create_product_of texts name description price stock ≡ some input
      → IsSound input.price input.name
  unfolding create_product_of
  create_product_of-IsSound name description price stock input h =
      let (u, passed, made) = >>=-eq-some _ _ h in
      let fits = guard_passed _ passed in
      let input_made = some_input made in
      let same_price : price.units ≡ input.price = ap (λ i. i.price) input_made in
      let same_name : texts.trim name ≡ input.name = ap (λ i. i.name) input_made in
      let (named, at_least, whole) : (has_length 255 (texts.trim name) ≡ true)
          × (is_at_least 100 price ≡ true)
          × ((price.units % 100 == 0) ≡ true) =
        ground (arith, fits) in
      (rw⁻¹ same_price (cents price at_least), rw⁻¹ same_price (ground arith), rw⁻¹ same_name named)

  create_product_schema-IsSound :
      (body : Body) (input : CreateProductInput)
      → create_product_schema texts body ≡ some input
      → IsSound input.price input.name
  unfolding create_product_schema
  create_product_schema-IsSound body input h =
      let (u, known, h₁) = >>=-eq-some _ _ h in
      let (name, n, h₂) = >>=-eq-some _ _ h₁ in
      let (description, d, h₃) = >>=-eq-some _ _ h₂ in
      let (price, p, h₄) = >>=-eq-some _ _ h₃ in
      let (stock, s, h₅) = >>=-eq-some _ _ h₄ in
      create_product_of-IsSound name description price stock input h₅

module _ {D : Type 0} (texts : Texts) (invalid : Error) (repository : ProductsRepository D)
    (laws : IsRepository repository) where
  open repository use {rows}

  created-IsOffered :
      (input : CreateProductInput) (user : AuthenticatedUser) (d : D)
      → IsSound input.price input.name
      → All IsOffered (rows d)
      → All IsOffered (rows (create_as repository input user d).1)
  unfolding create_as create new_product
  created-IsOffered input user d sound offered = elim (Bool-cases (is_seller user.role)) [
    | inr buys ↦ rw buys offered
    | inl sells ↦ rw sells (elim (laws.inserts (λ id now. new_product id now input user.id) d) [
      | inl (id, now, e, added) ↦ rw added (
          All-append IsOffered (rows d) (new_product id now input user.id ∷ []) offered (sound, tt))
      | inr (code, e, same) ↦ rw same offered
    ])
  ]

  -- Whatever body is posted, by whichever user: every product keeps a price of at least one cent and
  -- in whole cents, and a name of 1 to 255 characters.
  pub route-IsOffered :
      (body : Body) (user : AuthenticatedUser) (d : D)
      → All IsOffered (rows d)
      → All IsOffered (rows (Routes.create_product texts invalid repository user body d).1)
  unfolding Routes.create_product
  route-IsOffered body user d offered = elim (Option-cases (create_product_schema texts body)) [
    | inl refused ↦ rw refused offered
    | inr (input, h) ↦
        rw h (
          created-IsOffered input user d (create_product_schema-IsSound texts body input h) offered)
  ]
