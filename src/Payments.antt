-- ===== src/Payments.antt =====
-- src/payments: the provider boundary (payment-provider.types.ts, payment-provider.port.ts) and
-- the mock provider (mock-payment.provider.ts).
pub mod Types
pub mod MockProvider
pub mod Initiation
pub mod Redaction
pub mod Callbacks
