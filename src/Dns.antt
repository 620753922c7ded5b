-- ===== src/Dns.antt =====
-- src/dns: the names that are asked for, and the answers. A `Name` of the crate hickory-proto is the
-- list of its labels.
pub mod Address
pub mod Name
pub mod Text
pub mod Answer
