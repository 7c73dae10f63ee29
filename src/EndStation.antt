-- ===== src/EndStation.antt =====
-- controller/lib/src/end_station_imp.{h,cpp}: how an end station's descriptors are read in the
-- background.
pub mod Requests
pub mod Descriptors
pub mod Read
pub mod Order
pub mod Batch
pub mod Missing
mod Tests
