-- ===== src/Resource.antt =====
-- rpki/resource_set.py: ranges and sets of AS numbers and IP addresses.
pub mod Range
pub mod Sorted
pub mod Unique
pub mod Set
pub mod Comm
pub mod Union
pub mod Query
pub mod Prefix
pub mod Roa
pub mod Bag
mod Examples
mod AddressExamples
