-- ===== src/Core.antt =====
-- treble/core: what every other part names instruments, facts and positions by.
pub mod Chars
pub mod Identifiers
pub mod Positions
pub mod EntityGraph
