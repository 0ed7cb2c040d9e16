-- ===== src/Products/Catalog.antt =====
-- The creation of a product, against the lists of products.
use study_microsservices_nod.Base.{
  ℕ, String, Bool, true, false, ◌=ₛ◌, List, [], ◌∷◌, ◌++◌, filter, Error, query_failed, ok, err,
  ◌≡◌, refl, ap, ◌∙◌, ◌⊎◌, inl, inr, Bool-cases, if◌then◌else◌,
}
use study_microsservices_nod.Users.Auth.{AuthenticatedUser}
use study_microsservices_nod.Products.{
  Product, CreateProductInput, ProductsRepository, IsRepository, new_product, sellers_only,
  is_seller, is_active_of, create, create_as,
}

filter-append :
    (test : Product → Bool) (xs ys : List Product)
    → filter test (xs ++ ys) ≡ filter test xs ++ filter test ys
filter-append test [] ys = refl
filter-append test (x ∷ xs) ys = elim (Bool-cases (test x)) [
  | inl hit ↦ rw (hit, filter-append test xs ys) refl
  | inr miss ↦ rw (miss, filter-append test xs ys) refl
]

module _ {D : Type 0} (repository : ProductsRepository D) (laws : IsRepository repository) where
  open repository use {rows}

  abbrev pub listed : String → D → List Product
  listed seller_id d = filter (is_active_of seller_id) (rows d)

  added_listed :
      (id : String) (now : ℕ) (input : CreateProductInput) (owner seller : String) (d d' : D)
      → rows d' ≡ rows d ++ new_product id now input owner ∷ []
      → listed seller d'
        ≡ listed seller d ++ (if owner =ₛ seller then new_product id now input owner ∷ [] else [])
  unfolding new_product
  added_listed id now input owner seller d d' e =
      ap (filter (is_active_of seller)) e
      ∙ filter-append (is_active_of seller) (rows d) (new_product id now input owner ∷ [])
      ∙ elim (Bool-cases (owner =ₛ seller)) [
        | inl same ↦ rw same refl
        | inr differs ↦ rw differs refl
      ]

  -- A seller who creates a product finds it in the list of active products of that seller, behind those
  -- that were there, and no other seller's list changes. For one who is no seller it is 403; then, and
  -- when the database refuses, the table is as before.
  pub create_effect :
      (input : CreateProductInput) (user : AuthenticatedUser) (d : D)
      → let x = create_as repository input user d in
        ((product : Product) × (id : String) × (now : ℕ) × (x.0 ≡ ok product)
          × (is_seller user.role ≡ true)
          × (product ≡ new_product id now input user.id)
          × ((seller : String)
              → listed seller x.1
                ≡ listed seller d ++ (if user.id =ₛ seller then product ∷ [] else [])))
        ⊎ ((e : Error) × (x.0 ≡ err e)
            × (rows x.1 ≡ rows d)
            × (((e ≡ sellers_only) × (is_seller user.role ≡ false))
                ⊎ ((code : String) × (e ≡ query_failed code))))
  unfolding create_as create
  create_effect input user d = elim (Bool-cases (is_seller user.role)) [
    | inr buys ↦ rw buys (inr (sellers_only, refl, refl, inl (refl, refl)))
    | inl sells ↦ rw sells (elim (laws.inserts (λ id now. new_product id now input user.id) d) [
      | inl (id, now, e, added) ↦ inl (
        new_product id now input user.id,
        id,
        now,
        e,
        refl,
        refl,
        (λ seller.
            added_listed id now input user.id seller d
              (repository.insert_one (λ id now. new_product id now input user.id) d).1 added),
      )
      | inr (code, e, same) ↦ inr (query_failed code, e, same, inr (code, refl))
    ])
  ]
