-- ===== src/Calendar.antt =====
-- frontend/src/screens/calendar-direct-manipulation.ts: moving, resizing and laying out the events
-- of the calendar. Instants and offsets of the host's time zones are parameters.
pub mod Snap
pub mod Lanes
pub mod Changes
mod Tests
