-- ===== src/Grading.antt =====
-- Official grading: backend/src/grading.
pub mod Scales
pub mod Grades
pub mod Repository
pub mod Service
pub mod Resolves
pub mod Resolved
pub mod Rules
pub mod Summary
pub mod Ledger
pub mod Closure
