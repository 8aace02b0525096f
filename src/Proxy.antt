-- ===== src/Proxy.antt =====
-- The Anthropic gateway, proxy/: quotas, the key pool, usage sniffing and the forward handler.
pub mod Quota
pub mod Keys
pub mod Stream
pub mod Server
pub mod Start
pub mod Tests
