-- ===== src/Nats.antt =====
-- pkg/drivers/nats/codec.go: the keys of a NATS bucket.
pub mod Split
pub mod Codec
pub mod RoundTrip
pub mod Examples
