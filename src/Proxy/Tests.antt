-- ===== src/Proxy/Tests.antt =====
-- The gateway at concrete inputs: runs of the code, and the theorems at inputs that meet their
-- hypotheses.
pub mod Limits
pub mod Tokens
pub mod Streams
pub mod Requests
