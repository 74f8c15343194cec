-- ===== src/Guardians.antt =====
-- Guardians: their shift (src/guardians/shift-state.service.ts) and whether they may be dispatched
-- (src/guardians/guardian-eligibility.service.ts).
pub mod ShiftState
pub mod Consistency
