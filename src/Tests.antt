-- ===== src/Tests.antt =====
-- Runs of the theorems at concrete inputs, with the data that they share.
mod Data
mod Storages
mod Streams
mod Clients
mod BaseStations
mod Memories
mod Monitors
mod Messages
