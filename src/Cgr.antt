-- ===== src/Cgr.antt =====
-- Contact graph routing: bp/cgr/libcgr.c.
pub mod Ranges
pub mod Note
pub mod Dijkstra
pub mod Routes
pub mod Proximate
pub mod Recompute
pub mod Arrival
pub mod Identify
mod Tests
