-- ===== src/Viper.antt =====
-- The key-value store of include/viper/viper.hpp: pages of records in persistent memory, and an
-- index from keys to the places of the records.
pub mod Offset
pub mod Lock
pub mod Page
pub mod Interface
pub mod State
pub mod Access
pub mod Client
pub mod Valid
pub mod System
pub mod Recovery
pub mod Reclaim
pub mod Seqlock
pub mod Slots
mod Tests
