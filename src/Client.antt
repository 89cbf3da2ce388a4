-- ===== src/Client.antt =====
-- The common client of the outputs, output/baseoutput: sessions with their acknowledger, and the
-- worker that runs one session after another.
pub mod Ids
pub mod Leftovers
pub mod Session
pub mod Worker
mod Tests
