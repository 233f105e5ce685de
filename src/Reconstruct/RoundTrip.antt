-- ===== src/Reconstruct/RoundTrip.antt =====
-- The round trips through the JSON forms of a simulation.
pub mod System
pub mod TokenForm
pub mod Token
pub mod Lacking
