-- ===== src/Topshim.antt =====
-- src/topshim: the frames of the C++ core and the actors around it.
pub mod Frame
pub mod Actors
