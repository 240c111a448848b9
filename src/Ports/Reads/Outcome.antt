-- ===== src/Ports/Reads/Outcome.antt =====
-- What a read of main/port_sensors.c leaves behind, whichever transfer fails.
use esp32_wifi_ap_cp.Base.{
  ℕ, ◌<◌, Bool, true, false, ◌≡◌, refl, arith, if◌then◌else◌, length, ap, ◌∙◌, Bool-cases, inl, inr,
  get_or-set_self, length-set,
}
use esp32_wifi_ap_cp.Base.Errors.{is_ok}
use esp32_wifi_ap_cp.Ports.Bus.{
  port_sensor_count, fault, I2c, Ports, Port, no_port, port_at, set_present, i2c_address,
  reg_calibration, ina219_calibration, reg_bus_voltage, reg_current, i2c_probe_address,
  ina219_configure, ina219_write_u16, ina219_read_u16, ensure_sensor_ready,
}
use esp32_wifi_ap_cp.Ports.Reads.{occupancy, read_ready, port_sensors_read}

-- A transfer changes none of the statics.
module _ (io : I2c) (addr : ℕ) (s : Ports) where
  write_keeps : (reg v : ℕ) → (ina219_write_u16 io addr reg v s).1.ports ≡ s.ports
  unfolding ina219_write_u16
  write_keeps reg v = refl

  read_keeps : (reg : ℕ) → (ina219_read_u16 io addr reg s).2.ports ≡ s.ports
  unfolding ina219_read_u16
  read_keeps reg = ground arith

  probe_keeps : (i2c_probe_address io addr s).1.ports ≡ s.ports
  unfolding i2c_probe_address
  probe_keeps = refl

configure_keeps : (io : I2c) (addr : ℕ) (s : Ports) → (ina219_configure io addr s).1.ports ≡ s.ports
unfolding ina219_configure ina219_write_u16 ina219_read_u16
configure_keeps io addr s = ground arith

-- What `set_present` does to a table that holds the port.
set_present_lem :
    (id : ℕ) (b : Bool) (s : Ports)
    → id < length s.ports
    → ((port_at (set_present id b s) id).present ≡ b)
      × (length (set_present id b s).ports ≡ length s.ports)
set_present_lem id b s l = (
  ap (λ (p : Port). p.present)
      (get_or-set_self s.ports id (record (port_at s id) { present = b }) no_port l),
  length-set s.ports id (record (port_at s id) { present = b }),
)

-- The port is marked as present exactly where the sensor is ready.
ensure_outcome :
    (io : I2c) (id : ℕ) (s : Ports)
    → id < length s.ports
    → let (err, s1) = ensure_sensor_ready io id s in
      ((port_at s1 id).present ≡ is_ok err) × (length s1.ports ≡ length s.ports)
unfolding ensure_sensor_ready
ensure_outcome io id s l =
    let s1 = (i2c_probe_address io (i2c_address id) s).1 in
    let s2 = (ina219_configure io (i2c_address id) s1).1 in
    let k1 : s1.ports ≡ s.ports = probe_keeps io (i2c_address id) s in
    let k2 : s2.ports ≡ s.ports = configure_keeps io (i2c_address id) s1 ∙ k1 in
    ground (
      arith,
      k1,
      k2,
      ap length k1,
      ap length k2,
      set_present_lem id true s2 (omega (arith, ap length k2)),
    )

ready_outcome :
    (io : I2c) (id : ℕ) (s : Ports)
    → id < length s.ports
    → (port_at s id).present ≡ true
    → let (err, r, s') = read_ready io id s in
      ((port_at s' id).present ≡ is_ok err)
      × (r.status ≡ (if is_ok err then occupancy r.current else fault))
      × (length s'.ports ≡ length s.ports)
unfolding read_ready
ready_outcome io id s l p =
    let addr = i2c_address id in
    let s1 = (ina219_write_u16 io addr reg_calibration ina219_calibration s).1 in
    let s2 = (ina219_read_u16 io addr reg_bus_voltage s1).2 in
    let s3 = (ina219_read_u16 io addr reg_current s2).2 in
    let k1 : s1.ports ≡ s.ports = write_keeps io addr s reg_calibration ina219_calibration in
    let k2 : s2.ports ≡ s.ports = read_keeps io addr s1 reg_bus_voltage ∙ k1 in
    let k3 : s3.ports ≡ s.ports = read_keeps io addr s2 reg_current ∙ k2 in
    ground (
      arith,
      k3,
      ap length k1,
      ap length k2,
      ap length k3,
      set_present_lem id false s1 (omega (arith, ap length k1)),
      set_present_lem id false s2 (omega (arith, ap length k2)),
      set_present_lem id false s3 (omega (arith, ap length k3)),
    )

-- A read of a port of the initialised module marks the port's sensor as present exactly where it
-- succeeds; its status is then in use or available, by the current read, and otherwise a fault.
pub read_outcome :
    (io : I2c) (id : ℕ) (s : Ports)
    → s.initialized ≡ true
    → id < port_sensor_count
    → length s.ports ≡ port_sensor_count
    → let (err, r, s') = port_sensors_read io id s in
      ((port_at s' id).present ≡ is_ok err)
      × (r.status ≡ (if is_ok err then occupancy r.current else fault))
      × (length s'.ports ≡ port_sensor_count)
unfolding port_sensors_read
read_outcome io id s on l k =
    let (err, s1) = ensure_sensor_ready io id s in
    let e = ensure_outcome io id s (omega arith) in
    elim (Bool-cases (is_ok err)) [
      | inl ok ↦ ground (arith, e, ready_outcome io id s1 (omega (arith, e.1)) (e.0 ∙ ok))
      | inr failed ↦ ground (arith, e)
    ]
