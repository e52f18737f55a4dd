-- ===== src/Admissions.antt =====
-- backend/src/admissions: applications, quotas, reservations and enrollment conversions.
pub mod Status
pub mod Models
pub mod Reservation
pub mod Repository
pub mod Service
pub mod Lifecycle
