-- ===== src/Tests.antt =====
-- Runs of the definitions and of the theorems at concrete inputs.
mod Breakers
mod Messages
mod Services
mod Requests
mod Payments
mod Accounts
mod Site
mod Toy
mod Sessions
