-- ===== src/Aecp.antt =====
-- controller/lib/src/aecp_controller_state_machine.{h,cpp}: the AECP controller state machine.
pub mod Pdu
pub mod Machine
pub mod Callback
pub mod Cases
pub mod Invariant
pub mod Response
pub mod Operations
pub mod History
pub mod SequenceIds
pub mod Transmissions
pub mod Expiry
mod Tests
