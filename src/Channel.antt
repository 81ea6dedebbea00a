-- ===== src/Channel.antt =====
-- internal/channel: the circuit breakers, the registry that dispatches to senders, the senders.
pub mod Breaker
pub mod RedisBreaker
pub mod Registry
pub mod Inapp
