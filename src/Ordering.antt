-- ===== src/Ordering.antt =====
-- src/changebridge/cdc_ordering.py: positions in the write-ahead log and the order of events. An event
-- is a record of the fields of its envelope that are read here, so that the diagnostics for an absent
-- field, or one of another type, have no case.
pub mod Lsn
pub mod RoundTrip
pub mod Position
pub mod Events
pub mod Sorted
mod Tests
