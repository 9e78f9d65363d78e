-- ===== src/Types.antt =====
-- The value types, package types.
pub mod ZSet
pub mod Set
pub mod Text
pub mod AnyList
pub mod Number
pub mod Table
