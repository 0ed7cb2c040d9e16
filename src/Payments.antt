-- ===== src/Payments.antt =====
-- payments-service/src: takes payment orders off the queue, charges them once, and reports.
pub mod Money
pub mod Entity
pub mod Charge
pub mod Service
pub mod Dlq
pub mod Rabbitmq
pub mod Messaging
pub mod Consumer
pub mod Reporting
mod Tests
