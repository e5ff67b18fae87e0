-- ===== src/Payments.antt =====
-- src/modules/payments: recording a payment and refunding one (payments.service.ts, with the queries of
-- payments.repository.ts that they make).
pub mod Queries
pub mod Record
pub mod Refund
