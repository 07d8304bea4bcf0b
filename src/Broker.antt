-- ===== src/Broker.antt =====
-- internal/broker: names, access control, committed offsets and topics.
pub mod Names
pub mod Acl
pub mod Offsets
pub mod Topics
pub mod Group
