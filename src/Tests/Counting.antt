-- ===== src/Tests/Counting.antt =====
-- Sightings of one value: src/attribute.rs.
use sightingdb.Order.{int_ord, text_ord}
use sightingdb.Tests.Clock.{clock}
