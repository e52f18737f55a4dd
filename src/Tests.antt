-- ===== src/Tests.antt =====
-- Runs of the models on small inputs, and each theorem applied to one.
pub mod Scheduling
pub mod Generation
pub mod Timetable
pub mod Admissions
pub mod Enrolling
pub mod Entitlements
pub mod Outbox
pub mod Grading
pub mod Academics
