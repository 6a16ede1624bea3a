-- ===== src/Store.antt =====
-- treble/store: the content-addressed archive of raw payloads.
pub mod Payloads
