-- ===== src/Descriptor.antt =====
-- controller/lib/src/*_descriptor_imp.cpp: the objects of the descriptor classes that exchange
-- commands with their end station, their proc_*_resp and send_*_cmd methods.
pub mod Frames
pub mod Base
pub mod StreamInput
pub mod StreamOutput
pub mod AudioUnit
pub mod ClockDomain
pub mod MemoryObject
pub mod Sends
pub mod AcmpSends
pub mod Station
pub mod Access
mod Tests
