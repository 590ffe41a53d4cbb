-- ===== src/Kfake.antt =====
-- kfake: the mock broker that the client is tested against.
pub mod Group
pub mod Log
