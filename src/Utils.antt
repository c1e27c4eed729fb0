-- ===== src/Utils.antt =====
-- kernel/utils.hpp: strings, critical sections and ranges.
pub mod Strings
pub mod Memory
pub mod Literals
pub mod Guard
pub mod Range
