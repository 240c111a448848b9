-- ===== src/Pzem.antt =====
-- The AC energy meter, main/pzem_reader.c.
pub mod Frames
pub mod Meter
