-- ===== src/Entitlements.antt =====
-- backend/src/entitlements: plans, subscriptions, overrides and the resolution of features.
pub mod Models
pub mod Tables
pub mod Service
pub mod Resolve
pub mod Resolution
pub mod Subscribed
pub mod Entitled
pub mod Lifecycle
pub mod Intents
pub mod Stored
pub mod Governed
pub mod Methods
pub mod Handled
