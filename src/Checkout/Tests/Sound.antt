-- ===== src/Checkout/Tests/Sound.antt =====
-- A user who adds a product, removes an item and checks out, and another who looks.
use study_microsservices_nod.Base.{refl, arith, List, [], ◌∷◌}
use study_microsservices_nod.Checkout.Orders.{new_item, recalculated_total}
use study_microsservices_nod.Checkout.Cart.Tables.{IsSound}
use study_microsservices_nod.Checkout.Sound.{
  Operation, see_cart, add, remove, order, see_order, after_all, operations-IsSound,
}
use study_microsservices_nod.Checkout.Tests.Database.{database, database-IsManager}
use study_microsservices_nod.Checkout.Tests.Effects.{shop, fetch, publish}

abbrev asked : List Operation
asked =
    add "user-1" "product-1" 3
    ∷ see_cart "user-2"
    ∷ remove "user-2" "item-1"
    ∷ order "user-1" "pix"
    ∷ order "user-1" "pix"
    ∷ see_order "user-2" "id-1"
    ∷ []

shop-IsSound : IsSound shop.tables
unfolding new_item recalculated_total
shop-IsSound = ((refl, tt), (omega arith, tt), (refl, tt))

operations-IsSound_example :
    IsSound
      (after_all database database-IsManager fetch publish
        (λ id d. refl)
        (λ message d. refl)
        asked
        shop).tables
operations-IsSound_example =
    operations-IsSound database database-IsManager fetch publish (λ id d. refl) (λ message d. refl)
      asked shop shop-IsSound
