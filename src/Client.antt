-- ===== src/Client.antt =====
-- The BLE clients, src/solem_blip_ble/client_v2.py and client_persistent.py. What the controller, the
-- clock and the backend do enters as arguments: the frames that arrive in a wait, and the events of
-- an attempt.
pub mod Handlers
pub mod Transaction
pub mod Attempt
pub mod Stateless
pub mod Persistent
pub mod Routing
pub mod Polling
pub mod Reading
pub mod ConfigReading
pub mod NameListing
pub mod NameWriting
pub mod Session
pub mod ProgramWriting
pub mod ProgramSetting
pub mod Commands
pub mod Polls
pub mod Drops
