-- ===== src/Checkout.antt =====
-- checkout-service/src: carts, orders, and the message that asks for their payment.
pub mod Money
pub mod Orders
pub mod Store
pub mod Responses
pub mod Client
pub mod Cart
pub mod Ordering
pub mod Sound
pub mod Tests
