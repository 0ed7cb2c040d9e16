-- ===== src/Products/Tests.antt =====
-- A seller who creates a product, over a table that is a list.
use study_microsservices_nod.Base.{
  ℕ, ◌*◌, String, true, false, ◌=ₛ◌, List, [], ◌∷◌, ◌++◌, filter, find, Error, query_failed, ok,
  err, ◌≡◌, refl, ◌⊎◌, inl, if◌then◌else◌,
}
use study_microsservices_nod.Payments.Money.{cent}
use study_microsservices_nod.Users.{seller}
use study_microsservices_nod.Users.Auth.{AuthenticatedUser}
use study_microsservices_nod.Products.{
  Product, CreateProductInput, ProductsRepository, IsRepository, new_product, sellers_only,
  is_seller, create_as,
}
use study_microsservices_nod.Products.Catalog.{listed, create_effect}

abbrev pub table : ProductsRepository (List Product)
table = record {
  rows = λ d. d;
  find_one = λ test d. (ok (find test d), d);
  find_by = λ test d. (ok (filter test d), d);
  find_latest = λ test d. (ok (filter test d), d);
  insert_one = λ row d. (ok (row "product-1" 5), d ++ row "product-1" 5 ∷ []);
}

pub table-IsRepository : IsRepository table
table-IsRepository = record {
  finds = λ test d. (refl, inl refl);
  finds_by = λ test d. (refl, inl refl);
  inserts = λ row d. inl ("product-1", 5, refl, refl);
}

abbrev pub input : CreateProductInput
input = record { name = "Notebook"; description = "15 inches"; price = 199999 * cent; stock = 3 }

abbrev pub ana : AuthenticatedUser
ana = record { id = "user-1"; email = "ana@shop.com"; role = seller }

create_effect_example :
    let x = create_as table input ana [] in
    ((product : Product) × (id : String) × (now : ℕ) × (x.0 ≡ ok product)
      × (is_seller ana.role ≡ true)
      × (product ≡ new_product id now input ana.id)
      × ((seller_id : String)
          → listed table table-IsRepository seller_id x.1
            ≡ listed table table-IsRepository seller_id []
              ++ (if ana.id =ₛ seller_id then product ∷ [] else [])))
    ⊎ ((e : Error) × (x.0 ≡ err e)
        × (x.1 ≡ [])
        × (((e ≡ sellers_only) × (is_seller ana.role ≡ false))
            ⊎ ((code : String) × (e ≡ query_failed code))))
create_effect_example = create_effect table table-IsRepository input ana []
