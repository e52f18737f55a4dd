-- ===== src/Academics.antt =====
-- backend/src/academics: curricula, course enrollments and the rules of course selection.
pub mod Models
pub mod Selection
pub mod Declared
pub mod Admissible
pub mod Meetings
