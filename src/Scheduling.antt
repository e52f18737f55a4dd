-- ===== src/Scheduling.antt =====
-- backend/src/scheduling: timetable sessions, hard constraints and replacements.
pub mod Windows
pub mod Sessions
pub mod Context
pub mod Conflicts
pub mod Intervals
pub mod Recurrence
pub mod Replacement
pub mod Replaced
pub mod Feasible
pub mod Soft
pub mod Generation
pub mod Generator
pub mod Beside
pub mod Attempts
pub mod Placing
pub mod Drafts
pub mod Unscheduled
pub mod Generated
pub mod Repository
pub mod Service
pub mod Returns
pub mod Saves
pub mod Booked
pub mod Swapped
pub mod Timetabled
