-- ===== src/Lib.antt =====
-- A model of a shop of NestJS services: a gateway (api-gateway/) in front of the services for users,
-- products, checkout and payments. A request passes the gateway's proxy to a service; an order that
-- was checked out goes over RabbitMQ to the payments service, which charges it and stores the payment.
--
-- Base holds what the parts share: Booleans and tests on numbers and texts, lists, maps with string
-- keys, JSON values, and `Action S A`, an `async` function over the state `S` that settles with a value or
-- an error and keeps what it wrote before a throw.
--
-- Gateway (api-gateway/src):
--   Process         the memory of the process: clock, random draws, circuits, caches, the network
--   CircuitBreaker  common/circuit-breaker: `executeWithCircuitBreaker` with `onSucess`, `onFailure`
--   Retry           common/retry: `executeWithRetry`, `executeWithExponentialBackoff`
--   Timeout         common/timeout: `executeWithTimeout`, `executeWithCustomTimeout`
--   Fallback        common/fallback: the cache of answers and the canned answers
--   Auth            auth/services, auth/strategies, auth/guards: who is let in
--   Throttler       guards/throttler.guard.ts
--   Routes          the controllers: the call of the proxy that each handler makes
--   Health          common/health and controllers/health.*: a check of a service, the reports
--   Config, Proxy   config/gateway.config.ts and proxy/service: `proxyRequest`, the three layers round a
--                   request, and `createServiceFallback`
-- Payments (payments-service/src):
--   Money, Entity, Charge, Service   payments/: `processPayment` over the table of payments
--   Dlq             events/dlq: the service that looks through the dead-letter queue, and its routes
--   Rabbitmq        events/rabbitmq, events/payment-queue: the declared queues, the message handler
--   Messaging       events/rabbitmq: the life cycle, `publishMessage`, `subscribeToQueue`; the start of the
--                   consumer
--   Consumer        events/payment-consumer: `processPaymentOrder` and the metrics
--   Reporting       events/metrics: the routes that report the metrics
-- Checkout (checkout-service/src):
--   Money, Orders   cart/cart-money.ts; what is written into items, carts and orders, and the message
--                   that asks for payment (events/payment-queue)
--   Store           the database: tables of carts, items and orders, and how a chain of calls settles
--   Client          cart/clients: the look-up of a product, and what the cart makes of its errors
--   Cart            cart/cart.service.ts: `getCart`, `addItem`, `removeItem`, against a bag of products
--   Ordering        orders/orders.service.ts: `checkout`, `findAllByUser`, `findByIdForUser`; Concurrent
--                   has several checkouts at once, as steps of their transactions
--   Sound           these operations one after another
--   Responses       the mappers of carts and orders to what clients see
-- Contract          events/payment-queue/payment-queue.interface.ts of both services: Publisher has the
--                   schemas of the checkout service, its PaymentsQueueService and `publishMessage`,
--                   Consumer the schema of the payments service, Messaging the life cycle of the checkout
--                   service's events/rabbitmq
-- Users (users-service/src):
--   Auth, Accounts  auth/services, auth/strategies, auth/guards; users/users.service.ts
-- Products          products-service/src/products: the service, and who may create
-- Bodies            what a request's body must be: Gateway has the gateway's schemas and pipe (pipes/, and the
--                   dtos/ folders), Services those of the services, Routes the services' controllers
--                   behind their pipes, Agreement both checks one after the other
-- Access            who a request is from: the guards and strategies of the services (auth/), the check of a
--                   token by the users service, and the gateway's guard; the services' copies are alike
-- Broker            what the two events/rabbitmq services use of amqplib, and their state
-- Beside each component stand its laws, and under Tests the runs at concrete inputs.
--
-- How it is modelled. Time stands still between two awaits, and a `setTimeout` that is awaited moves
-- the clock by its milliseconds. `Math.random()` is a stream of multiples of 2⁻⁵³. A circuit is an
-- object that the map and a call in flight may share, so circuits are cells and the map holds
-- addresses. An operation is any function on the process, so what happens while it is awaited, another
-- request's changes too, is covered. `Promise.race` does not cancel: of an operation that is late the
-- changes are kept, and the caller goes on at the timer's time; these changes show from then on, where
-- in the program some come later. Amounts are hundredths of a cent, so that rounding to cents shows.
-- Loops recurse on the rounds that are left, which the code's own bounds give, so no fuel is chosen.
--
-- Parameters, with what the code relies on: the HTTP client, how a number is written, `toFixed` and
-- `parseInt`, `JSON.parse`, the schema of a message; the repository of payments (`IsRepository`: finds
-- by the order's id, refuses a second row of an order, a failing call changes nothing); the channel of
-- the broker (`IsChannel`, of an open channel: it declares and publishes, a message that is put back
-- takes its old place at the head, as RabbitMQ documents of a queue with one consumer); the checkout
-- service's database (`IsManager`: a call answers from the tables or is refused and changes nothing,
-- ids are primary keys, a transaction keeps all its changes or none; columns hold what is written,
-- amounts of at most two decimals); the tables of users and products; bcrypt and the signing of tokens
-- (`IsCrypto`: a password matches its hash); zod's tests of texts and `trim` and `toLowerCase`
-- (`IsTexts`); passport (`IsPassport`: its guard asks the strategy about verified claims and
-- `handleRequest` about the outcome; `IsSigned`: the services share the secret of the tokens, whose
-- claims are those that were signed and the times of issue and expiry); amqplib, which throws on a
-- channel that is closed (`IsClosed`); the storage of hits of the throttling guard, and what `Number`
-- makes of its answer. Between the steps of concurrent checkouts PostgreSQL's default isolation holds:
-- an update waits for the lock of its row, then looks at the row again. Outside Concurrent a
-- transaction of the checkout service is not interleaved with others.
--
-- Not modelled: logs; wiring of modules, Swagger, environment, migrations; tokens themselves; changes of
-- the metrics while a message is awaited. Numbers of bodies have at most four decimals. The length of a
-- text counts its characters.
pub mod Base
pub mod Access
pub mod Gateway
pub mod Payments
pub mod Checkout
pub mod Contract
pub mod Users
pub mod Products
pub mod Bodies
pub mod Broker
