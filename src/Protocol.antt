-- ===== src/Protocol.antt =====
-- The pure part of the library: src/solem_blip_ble/protocol.py, in the order of its sections.
pub mod Command
pub mod Status
pub mod Metadata
pub mod Program
pub mod Write
pub mod Config
