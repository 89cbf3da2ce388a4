-- ===== src/Input.antt =====
-- The syslog input, input/: record starts, the multi-line reader of a TCP connection, the parser.
pub mod Protocol
pub mod MultiLine
pub mod Parser
mod Tests
