-- ===== src/Schedules.antt =====
-- frontend/src/screens/Schedules.tsx: the calendar of a project. Workspace is the period that it reads,
-- Gesture the pointer on one event, and Writes the one change of times that it has open.
pub mod Workspace
pub mod Writes
pub mod Gesture
