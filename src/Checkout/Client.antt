-- ===== src/Checkout/Client.antt =====
-- checkout-service/src/cart/clients/products-client.service.ts, and what the cart makes of its errors.
-- `get` is the HTTP client, which throws `http status response` for a response that is no success, and
-- `parse` is the schema of a product. Over any state `D`.
use study_microsservices_nod.Base.{
  String, Option, Error, http, product_not_found, products_service_unavailable, Action, try_catch,
  raise, or_raise, ◌>>=◌, ◌==◌, ◌+ₛ◌, if◌then◌else◌,
}
use study_microsservices_nod.Base.Values.{str}
use study_microsservices_nod.Checkout.Orders.{ExternalProduct}

module _ {D : Type 0} where
  -- The `catch` of the request.
  unfoldable pub fetch_failed : {R : Type 0} → String → Error → Action D R
  fetch_failed product_id (http status response) =
      raise (if status == 404 then product_not_found product_id else products_service_unavailable)
  fetch_failed product_id e = raise products_service_unavailable

  -- The `catch` of `fetchProduct`.
  unfoldable pub explain : {A : Type 0} → Error → Action D A
  explain (product_not_found product_id) = raise (http 404 (str "Produto não encontrado"))
  explain products_service_unavailable =
      raise (http 503 (str "Serviço de produtos indisponível no momento"))
  explain e = raise e

module _ {D R : Type 0} (products_service_url : String) (get : String → Action D R)
    (parse : R → Option ExternalProduct) where
  unfoldable pub get_product : String → Action D ExternalProduct
  unfolding fetch_failed
  get_product product_id = do
    response ←
        try_catch (get (products_service_url +ₛ "/products/" +ₛ product_id))
          (fetch_failed product_id)
    or_raise (parse response) products_service_unavailable

  unfoldable pub fetch_product : String → Action D ExternalProduct
  unfolding get_product explain
  fetch_product product_id = try_catch (get_product product_id) explain
