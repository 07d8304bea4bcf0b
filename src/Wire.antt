-- ===== src/Wire.antt =====
-- internal/wire: the Kafka wire protocol.
pub mod Frame
pub mod Sasl
