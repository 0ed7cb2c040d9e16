-- ===== src/Contract/Tests/Cut.antt =====
-- A checkout service whose channel the broker has closed: the database of the tests of checkouts, and the
-- messages that were sent. Channel 0 is closed, any other open.
use study_microsservices_nod.Base.{
  ℕ, ◌==◌, ◌≡◌, refl, String, true, some, List, [], ◌∷◌, ◌++◌, Action, Result, ok, err, plain,
  if◌then◌else◌, inl, ◌∙◌,
}
use study_microsservices_nod.Checkout.Store.{Manager, IsManager}
use study_microsservices_nod.Checkout.Tests.Database.{Database, database, database-IsManager}
use study_microsservices_nod.Checkout.Ordering.{create_order_from_active_cart, order_cart}
use study_microsservices_nod.Checkout.Tests.Effects.{shop}
use study_microsservices_nod.Contract.{PaymentOrderMessage}
use study_microsservices_nod.Contract.Messaging.Closed.{
  IsClosed, IsCut, IsUnpaid, checkouts, checkout_of, checkouts-IsUnpaid,
}
use study_microsservices_nod.Contract.Tests.{texts, texts-IsTexts}
use study_microsservices_nod.Broker.{Amqp, RabbitmqService, on_world}

abbrev World : Type 0
World = Database × List PaymentOrderMessage

abbrev Service : Type 0
Service = RabbitmqService World ℕ ℕ

abbrev throw_if_closed : ℕ → Action World (Unit {0})
throw_if_closed channel w =
    if channel == 0 then (err (plain "IllegalOperationError"), w) else (ok tt, w)

abbrev amqp : Amqp World ℕ ℕ PaymentOrderMessage
amqp = record {
  connect = λ url w. (ok 1, w);
  create_channel = λ connection w. (ok 0, w);
  close_channel = λ channel. throw_if_closed channel;
  close_connection = λ connection w. (ok tt, w);
  assert_exchange = λ channel exchange. throw_if_closed channel;
  assert_queue = λ channel queue arguments. throw_if_closed channel;
  bind_queue = λ channel queue exchange key. throw_if_closed channel;
  prefetch = λ channel count. throw_if_closed channel;
  consume = λ channel queue. throw_if_closed channel;
  publish = λ channel exchange key message w. (ok true, (w.0, w.1 ++ message ∷ []));
}

abbrev sent : World → List PaymentOrderMessage
sent w = w.1

abbrev Shut : ℕ → World → Type 0
Shut channel w = channel ≡ 0

amqp-IsClosed : IsClosed amqp sent Shut
amqp-IsClosed = record {
  throws = λ channel exchange w e. rw e (plain "IllegalOperationError", refl);
  stays = λ channel exchange w e. e;
  silent = λ channel exchange w e. rw e refl;
}

-- The database, in the service.
abbrev on_database : {A : Type 0} → Action Database A → Action Service A
on_database call = on_world (λ w. let (result, db) = call w.0 in (result, (db, w.1)))

-- A transaction changes the database alone, and that only if it succeeds.
abbrev committed : {A : Type 0} → Service → Result A × Service → Result A × Service
committed d (ok a, after) = (ok a, record d { world = (after.world.0, d.world.1) })
committed d (err e, after) = (err e, d)

abbrev manager : Manager Service
manager = record {
  view = λ d. database.view d.world.0;
  find_cart = λ test. on_database (database.find_cart test);
  find_item = λ test. on_database (database.find_item test);
  find_items = λ test. on_database (database.find_items test);
  find_order = λ test. on_database (database.find_order test);
  find_orders = λ test. on_database (database.find_orders test);
  insert_cart = λ row. on_database (database.insert_cart row);
  insert_item = λ row. on_database (database.insert_item row);
  insert_order = λ row. on_database (database.insert_order row);
  save_item = λ item. on_database (database.save_item item);
  remove_item = λ item. on_database (database.remove_item item);
  update_carts = λ test f. on_database (database.update_carts test f);
  transaction = λ body d. committed d (body d);
}

manager-IsManager : IsManager manager
manager-IsManager = record {
  finds_cart = λ test d. database-IsManager.finds_cart test d.world.0;
  finds_item = λ test d. database-IsManager.finds_item test d.world.0;
  finds_items = λ test d. database-IsManager.finds_items test d.world.0;
  finds_order = λ test d. database-IsManager.finds_order test d.world.0;
  inserts_cart = λ row d. database-IsManager.inserts_cart row d.world.0;
  inserts_item = λ row d. database-IsManager.inserts_item row d.world.0;
  inserts_order = λ row d. database-IsManager.inserts_order row d.world.0;
  saves_item = λ item d. database-IsManager.saves_item item d.world.0;
  removes_item = λ item d. database-IsManager.removes_item item d.world.0;
  updates_carts = λ test f d. database-IsManager.updates_carts test f d.world.0;
  item_key = λ test item d h. database-IsManager.item_key test item d.world.0 h;
  cart_key = λ test row d h. database-IsManager.cart_key test row d.world.0 h;
  commits = λ body a d h. rw h (inl (refl, refl));
  rolls_back = λ body e d h. rw h (refl, refl);
}

committed_keeps :
    {A : Type 0} (d : Service) (x : Result A × Service)
    → ((committed d x).1.channel ≡ d.channel) × ((committed d x).1.world.1 ≡ d.world.1)
committed_keeps d (ok a, after) = (refl, refl)
committed_keeps d (err e, after) = (refl, refl)

-- A transaction leaves the channel and what was sent alone.
placing_keeps :
    (user_id payment_method : String) (d : Service)
    → let after = (create_order_from_active_cart manager user_id payment_method d).1 in
      (after.channel ≡ d.channel) × (after.world.1 ≡ d.world.1)
unfolding create_order_from_active_cart
placing_keeps user_id payment_method d =
    committed_keeps d (order_cart manager user_id payment_method d)

abbrev service : Service
service = record { world = (shop, []); connection = some 1; channel = some 0 }

abbrev apart :
    (user_id payment_method : String) (d : Service)
    → let placing = create_order_from_active_cart manager user_id payment_method d in
      (IsCut amqp sent Shut amqp-IsClosed d → IsCut amqp sent Shut amqp-IsClosed placing.1)
      × (sent placing.1.world ≡ sent d.world)
apart user_id payment_method d =
    let (channel_same, sent_same) = placing_keeps user_id payment_method d in
    ((λ (channel, mine, shut). (channel, channel_same ∙ mine, shut)), sent_same)

-- The first checkout places an order, and the second finds no active cart.
checkouts-IsUnpaid_example :
    let after =
      checkouts amqp sent Shut amqp-IsClosed texts texts-IsTexts
        (λ d. 7)
        manager
        manager-IsManager
        apart
        (("user-1", "pix") ∷ [])
        service in
    (sent after.world ≡ [])
    × IsUnpaid amqp sent Shut amqp-IsClosed texts texts-IsTexts
        (λ d. 7)
        manager
        manager-IsManager
        apart
        ("user-1", "pix")
        after
        (checkout_of amqp sent Shut amqp-IsClosed texts texts-IsTexts
          (λ d. 7)
          manager
          manager-IsManager
          apart
          ("user-1", "pix")
          after)
checkouts-IsUnpaid_example =
    checkouts-IsUnpaid amqp sent Shut amqp-IsClosed texts texts-IsTexts (λ d. 7) manager
      manager-IsManager apart ("user-1", "pix") (("user-1", "pix") ∷ []) service (0, refl, refl)
