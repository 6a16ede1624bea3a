-- ===== src/Plant.antt =====
-- treble/plant: the ticker plant. A price or a size is a float, of which these modules only ask for
-- the operations that the program applies.
mod Deque
pub mod Tick
pub mod Conflation
pub mod Broadcast
pub mod History
pub mod Quotes
pub mod Vwap
