-- ===== src/Compliance.antt =====
-- treble/compliance: a mandate's rules, read from a file and tested on the holdings of a portfolio.
pub mod Rules
pub mod Loader
