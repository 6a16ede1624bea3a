-- ===== src/Ems.antt =====
-- treble/ems: the FIX session, its clock, and the acceptor that it is run against.
pub mod Simplefix
pub mod Moment
pub mod Session
pub mod Wire
pub mod Heartbeat
pub mod Simulator
pub mod Executions
