-- ===== src/Products.antt =====
-- products-service/src/products: products.service.ts, products.controller.ts, dtos/create-product.dto.ts
-- and entities/product.entity.ts. The table of products is a parameter.
pub mod Catalog
pub mod Tests
use study_microsservices_nod.Base.{
  ℕ, ◌%◌, String, Bool, true, false, not, ◌&&◌, ◌=ₛ◌, ◌==◌, leb, Option, none, some, List, [], ◌∷◌,
  ◌++◌, filter, find, Error, http, query_failed, Action, ok, err, pure, raise, raise_if, or_raise,
  ◌>>=◌, ◌>>◌, ◌≡◌, ◌⊎◌,
}
use study_microsservices_nod.Base.Values.{str}
use study_microsservices_nod.Payments.Money.{cent}
use study_microsservices_nod.Users.{UserRole, seller, buyer}
use study_microsservices_nod.Users.Auth.{AuthenticatedUser}

-- A price is in hundredths of a cent.
pub record Product : Type 0 where
  pub id : String
  pub name : String
  pub description : String
  pub price : ℕ
  pub stock : ℕ
  pub seller_id : String
  pub is_active : Bool
  pub created_at : ℕ
  pub updated_at : ℕ

pub record CreateProductInput : Type 0 where
  pub name : String
  pub description : String
  pub price : ℕ
  pub stock : ℕ

-- TypeORM's repository of products: `find_latest` orders by the time of creation, latest first.
pub record ProductsRepository (D : Type 0) : Type 0 where
  pub rows : D → List Product
  pub find_one : (Product → Bool) → Action D (Option Product)
  pub find_by : (Product → Bool) → Action D (List Product)
  pub find_latest : (Product → Bool) → Action D (List Product)
  pub insert_one : (String → ℕ → Product) → Action D Product

pub record IsRepository {D : Type 0} (repository : ProductsRepository D) : Type 0 where
  pub finds :
      (test : Product → Bool) (d : D)
      → (repository.rows (repository.find_one test d).1 ≡ repository.rows d)
        × (((repository.find_one test d).0 ≡ ok (find test (repository.rows d)))
            ⊎ ((code : String) × ((repository.find_one test d).0 ≡ err (query_failed code))))
  pub finds_by :
      (test : Product → Bool) (d : D)
      → (repository.rows (repository.find_by test d).1 ≡ repository.rows d)
        × (((repository.find_by test d).0 ≡ ok (filter test (repository.rows d)))
            ⊎ ((code : String) × ((repository.find_by test d).0 ≡ err (query_failed code))))
  pub inserts :
      (row : String → ℕ → Product) (d : D)
      → ((id : String) × (now : ℕ) × ((repository.insert_one row d).0 ≡ ok (row id now))
          × (repository.rows (repository.insert_one row d).1
              ≡ repository.rows d ++ row id now ∷ []))
        ⊎ ((code : String) × ((repository.insert_one row d).0 ≡ err (query_failed code))
            × (repository.rows (repository.insert_one row d).1 ≡ repository.rows d))

-- The row that `create` makes.
unfoldable pub new_product : String → ℕ → CreateProductInput → String → Product
new_product id now input seller_id = record {
  id = id;
  name = input.name;
  description = input.description;
  price = input.price;
  stock = input.stock;
  seller_id = seller_id;
  is_active = true;
  created_at = now;
  updated_at = now;
}

abbrev pub product_not_found : Error
product_not_found = http 404 (str "Produto não encontrado")

abbrev pub sellers_only : Error
sellers_only = http 403 (str "Apenas vendedores podem criar produtos")

abbrev pub is_seller : UserRole → Bool
is_seller seller = true
is_seller buyer = false

abbrev pub is_active_of : String → Product → Bool
is_active_of seller_id product = (product.seller_id =ₛ seller_id) && product.is_active

module _ {D : Type 0} (repository : ProductsRepository D) where
  unfoldable pub create : CreateProductInput → String → Action D Product
  unfolding new_product
  create input seller_id = repository.insert_one (λ id now. new_product id now input seller_id)

  unfoldable pub find_all_active : Action D (List Product)
  find_all_active = repository.find_latest (λ product. product.is_active)

  unfoldable pub find_active_by_seller : String → Action D (List Product)
  find_active_by_seller seller_id = repository.find_by (is_active_of seller_id)

  unfoldable pub find_by_id : String → Action D Product
  find_by_id id = do
    found ← repository.find_one (λ product. product.id =ₛ id)
    or_raise found product_not_found

  -- `ProductsController.create`
  unfoldable pub create_as : CreateProductInput → AuthenticatedUser → Action D Product
  unfolding create
  create_as input user = raise_if (not (is_seller user.role)) sellers_only >> create input user.id
