-- ===== src/Controller.antt =====
-- controller/lib/src/controller_imp.cpp: the packets received and sent and the time tick, over the
-- AECP, ACMP and ADP state machines and the end stations.
pub mod State
pub mod Interface
pub mod Packets
pub mod Connected
pub mod Agreement
pub mod History
mod Tests
