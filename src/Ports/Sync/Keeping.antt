-- ===== src/Ports/Sync/Keeping.antt =====
-- The reads of main/port_sensors.c keep the number of ports and what was sent.
use esp32_wifi_ap_cp.Base.{
  ℕ, zero, suc, ◌+◌, ◌≡◌, refl, ap, ◌∙◌, Bool, true, false, List, [], ◌∷◌, ◌++◌, arith, length, map,
  Option-cases, inl, inr, length-set,
}
use esp32_wifi_ap_cp.Base.Errors.{EspErr}
use esp32_wifi_ap_cp.Ports.Bus.{
  I2c, Port, Ports, port_at, i2c_probe_address, i2c_address, reg_calibration, ina219_calibration,
  reg_bus_voltage, reg_current, set_present, ina219_configure, ina219_write_u16, ina219_read_u16,
  ensure_sensor_ready,
}
use esp32_wifi_ap_cp.Ports.Reads.{Reading, first_of, read_ready, port_sensors_read, read_from}
use esp32_wifi_ap_cp.Ports.Sync.{update_daily_anchor_and_maybe_reset, clear_seconds}

-- What a read leaves alone.
abbrev pub SameCountAndPushes : Ports → Ports → Type 0
SameCountAndPushes s s' = (length s'.ports ≡ length s.ports) × (s'.pushes ≡ s.pushes)

transfers_keep :
    (io : I2c) (addr reg : ℕ) (s : Ports)
    → SameCountAndPushes s (ina219_read_u16 io addr reg s).2
      × SameCountAndPushes s (ina219_configure io addr s).1
unfolding ina219_configure ina219_write_u16 ina219_read_u16
transfers_keep io addr reg s = ground arith

set_keeps : (id : ℕ) (b : Bool) (s : Ports) → SameCountAndPushes s (set_present id b s)
set_keeps id b s = (length-set s.ports id (record (port_at s id) { present = b }), refl)

ensure_keeps :
    (io : I2c) (id : ℕ) (s : Ports) → SameCountAndPushes s (ensure_sensor_ready io id s).1
unfolding ensure_sensor_ready i2c_probe_address
ensure_keeps io id s =
    let addr = i2c_address id in
    let s1 = (i2c_probe_address io addr s).1 in
    let s2 = (ina219_configure io addr s1).1 in
    ground (arith, transfers_keep io addr 0 s1, set_keeps id true s2)

ready_keeps : (io : I2c) (id : ℕ) (s : Ports) → SameCountAndPushes s (read_ready io id s).2
unfolding read_ready ina219_write_u16
ready_keeps io id s =
    let addr = i2c_address id in
    let s1 = (ina219_write_u16 io addr reg_calibration ina219_calibration s).1 in
    let s2 = (ina219_read_u16 io addr reg_bus_voltage s1).2 in
    let s3 = (ina219_read_u16 io addr reg_current s2).2 in
    ground (
      arith,
      transfers_keep io addr reg_bus_voltage s1,
      transfers_keep io addr reg_current s2,
      set_keeps id false s1,
      set_keeps id false s2,
      set_keeps id false s3,
    )

read_keeps : (io : I2c) (id : ℕ) (s : Ports) → SameCountAndPushes s (port_sensors_read io id s).2
unfolding port_sensors_read
read_keeps io id s =
    let s1 = (ensure_sensor_ready io id s).1 in
    ground (arith, ensure_keeps io id s, ready_keeps io id s1)

pub read_from-keeps :
    (io : I2c) (n id : ℕ) (e : EspErr) (out : List Reading) (s : Ports)
    → SameCountAndPushes s (read_from io n id e out s).2
unfolding read_from
read_from-keeps io zero id e out s = (refl, refl)
read_from-keeps io (suc n) id e out s =
    let (err, r, s1) = port_sensors_read io id s in
    let k = read_keeps io id s in
    let rest = read_from-keeps io n (id + 1) (first_of e err) (out ++ (r ∷ [])) s1 in
    (rest.0 ∙ k.0, rest.1 ∙ k.1)

length-clear : (ps : List Port) → length (map clear_seconds ps) ≡ length ps
length-clear [] = refl
length-clear (p ∷ ps) = ap suc (length-clear ps)

pub roll-keeps :
    (now : ℕ) (s : Ports) → SameCountAndPushes s (update_daily_anchor_and_maybe_reset now s)
unfolding update_daily_anchor_and_maybe_reset
roll-keeps now s = elim (Option-cases s.utc_day_anchor) [
  | inl e ↦ rw e (refl, refl)
  | inr (d, e) ↦ rw e (ground (arith, length-clear s.ports))
]
