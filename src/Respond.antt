-- ===== src/Respond.antt =====
-- controller/lib/src/end_station_imp.cpp: what an end station does with a response, proc_rcvd_aem_resp,
-- proc_rcvd_aecp_aa_resp and proc_rcvd_acmp_resp over its descriptor objects.
pub mod Objects
pub mod Aem
pub mod Acmp
pub mod Answered
pub mod Completed
pub mod Same
pub mod Identity
pub mod Interface
pub mod Skipped
pub mod Format
mod Tests
