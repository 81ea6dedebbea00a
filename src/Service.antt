-- ===== src/Service.antt =====
-- internal/service: the business logic.
pub mod RateLimit
pub mod CodeStore
pub mod Template
pub mod Messages
pub mod Batch
pub mod Payment
pub mod Templates
pub mod Settings
