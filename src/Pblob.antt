-- ===== src/Pblob.antt =====
-- store/blob/pblob: the store of card files over Pebble, an ordered map from bytes to bytes.
pub mod Bytes
pub mod Key
pub mod Order
pub mod Db
pub mod Slots
pub mod Store
pub mod Reading
pub mod Puts
pub mod Refines
pub mod Sorted
pub mod Room
