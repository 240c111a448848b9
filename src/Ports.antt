-- ===== src/Ports.antt =====
-- The current sensors of the charging ports, main/port_sensors.c, with PORT_SENSORS_ENABLED and
-- PORT_SENSORS_SUPABASE_SYNC_ENABLED set to 1.
pub mod Bus
pub mod Reads
pub mod Sync
