-- ===== src/Acmp.antt =====
-- controller/lib/src/acmp_controller_state_machine.{h,cpp}: the ACMP controller state machine.
pub mod Machine
pub mod Account
mod Tests
