-- ===== src/Assignments.antt =====
-- The life of an assignment (src/assignments): the transition table, and the handlers of
-- AssignmentsService by phase.
pub mod Transitions
pub mod Advance
pub mod Update
pub mod Commits
pub mod Reads
pub mod Follow
pub mod Handlers
pub mod Offers
pub mod OnSite
pub mod EarlyRelease
pub mod Replacement
pub mod Completion
pub mod NoShow
pub mod Requests
pub mod Safety
pub mod Slots
pub mod Handoff
