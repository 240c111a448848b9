-- ===== src/Ports/Bus.antt =====
-- The I2C bus and the INA219 sensors of main/port_sensors.c: set-up, probing, scanning.
use esp32_wifi_ap_cp.Base.{
  ℕ, zero, suc, ◌+◌, ◌*◌, ◌/◌, ◌%◌, ◌^◌, Bool, true, false, not, Option, List, [], ◌∷◌, ◌++◌,
  if◌then◌else◌, ltb, get_or, set,
}
use esp32_wifi_ap_cp.Base.Errors.{EspErr, esp_ok, is_ok, is_invalid_state}

abbrev pub port_sensor_count : ℕ
port_sensor_count = 4

abbrev pub reg_config : ℕ
reg_config = 0x00

abbrev pub reg_bus_voltage : ℕ
reg_bus_voltage = 0x02

abbrev pub reg_current : ℕ
reg_current = 0x04

abbrev pub reg_calibration : ℕ
reg_calibration = 0x05

abbrev pub ina219_config : ℕ
ina219_config = 0x399F

abbrev pub ina219_calibration : ℕ
ina219_calibration = 4096

-- port_sensor_status_t
pub data Status : Type 0 where
  not_ready available in_use fault : Status

-- The fields of port_sensor_descriptor_t, by the port's number, which stands for its key too.
abbrev pub i2c_address : ℕ → ℕ
i2c_address id = get_or (0x44 ∷ 0x41 ∷ 0x40 ∷ 0x45 ∷ []) id 0

abbrev pub mosfet_gpio : ℕ → ℕ
mosfet_gpio id = get_or (14 ∷ 27 ∷ 26 ∷ 25 ∷ []) id 0

-- What the driver and the sensors answer. An answer may depend on all transfers before: it is given by
-- their number. A transfer that ends well reads two bytes.
pub record I2c : Type 0 where
  pub param_config : EspErr
  pub driver_install : EspErr
  pub probe : ℕ → ℕ → EspErr
  pub write : ℕ → ℕ → List ℕ → EspErr
  pub read : ℕ → ℕ → ℕ → EspErr × ℕ × ℕ

-- What the statics keep for a port.
pub record Port : Type 0 where
  pub present : Bool
  pub last_pushed_status : Status
  pub last_pushed_ts_ms : ℕ
  pub daily_in_use_seconds : ℕ
  pub last_accum_ts_ms : ℕ

-- What sync_reading_to_supabase sends.
pub record Push : Type 0 where
  pub port : ℕ
  pub status : Status
  pub seconds : ℕ

-- The statics of port_sensors.c, the number of transfers so far, and what was sent, the last first; the
-- day is `none` for -1.
pub record Ports : Type 0 where
  pub initialized : Bool
  pub i2c_installed : Bool
  pub sync_task_started : Bool
  pub utc_day_anchor : Option ℕ
  pub ports : List Port
  pub transfers : ℕ
  pub pushes : List Push

abbrev pub no_port : Port
no_port = record {
  present = false;
  last_pushed_status = not_ready;
  last_pushed_ts_ms = 0;
  daily_in_use_seconds = 0;
  last_accum_ts_ms = 0;
}

abbrev pub port_at : Ports → ℕ → Port
port_at s id = get_or s.ports id no_port

abbrev pub put_port : ℕ → Port → Ports → Ports
put_port id p s = record s { ports = set s.ports id p }

abbrev pub set_present : ℕ → Bool → Ports → Ports
set_present id b s = put_port id (record (port_at s id) { present = b }) s

abbrev pub ticked : Ports → Ports
ticked s = record s { transfers = s.transfers + 1 }

unfoldable pub i2c_bus_install : I2c → Ports → EspErr × Ports
i2c_bus_install io s =
    if s.i2c_installed
    then (esp_ok, s)
    else if not (is_ok io.param_config)
    then (io.param_config, s)
    else if is_ok io.driver_install
    then (esp_ok, record s { i2c_installed = true })
    else if is_invalid_state io.driver_install
    then (esp_ok, record s { i2c_installed = true })
    else (io.driver_install, s)

unfoldable pub i2c_probe_address : I2c → ℕ → Ports → EspErr × Ports
i2c_probe_address io addr s = (io.probe s.transfers addr, ticked s)

unfoldable pub ina219_write_u16 : I2c → ℕ → ℕ → ℕ → Ports → EspErr × Ports
ina219_write_u16 io addr reg value s =
    (io.write s.transfers addr (reg ∷ (value / 2 ^ 8) ∷ (value % 2 ^ 8) ∷ []), ticked s)

-- The value is 0 where the caller had set it to 0 and the transfer fails.
unfoldable pub ina219_read_u16 : I2c → ℕ → ℕ → Ports → EspErr × ℕ × Ports
ina219_read_u16 io addr reg s =
    let (err, hi, lo) = io.read s.transfers addr reg in
    if not (is_ok err) then (err, 0, ticked s) else (esp_ok, hi * 2 ^ 8 + lo, ticked s)

unfoldable pub ina219_configure : I2c → ℕ → Ports → EspErr × Ports
ina219_configure io addr s =
    let (e1, s1) = ina219_write_u16 io addr reg_config ina219_config s in
    let (e2, s2) = ina219_write_u16 io addr reg_calibration ina219_calibration s1 in
    let (e3, v, s3) = ina219_read_u16 io addr reg_config s2 in
    if not (is_ok e1) then (e1, s1) else if not (is_ok e2) then (e2, s2) else (e3, s3)

unfoldable pub ensure_sensor_ready : I2c → ℕ → Ports → EspErr × Ports
ensure_sensor_ready io id s =
    let (e1, s1) = i2c_probe_address io (i2c_address id) s in
    let (e2, s2) = ina219_configure io (i2c_address id) s1 in
    if (port_at s id).present
    then (esp_ok, s)
    else if not (is_ok e1)
    then (e1, s1)
    else if is_ok e2
    then (esp_ok, set_present id true s2)
    else (e2, s2)

-- The loop of the scan: `n` addresses from `addr` on are left; the addresses that are kept, and the
-- number of those that answered.
unfoldable pub scan_from : I2c → ℕ → ℕ → ℕ → List ℕ → ℕ → Ports → List ℕ × ℕ × Ports
scan_from io room zero addr found count s = (found, count, s)
scan_from io room (suc n) addr found count s =
    let (err, s1) = i2c_probe_address io addr s in
    let answers = is_ok err in
    scan_from io room n (addr + 1)
      (if answers then (if ltb count room then found ++ (addr ∷ []) else found) else found)
      (if answers then count + 1 else count) s1

-- 0x03 to 0x77, into an array with room for `room` addresses.
unfoldable pub port_sensors_scan_i2c : I2c → ℕ → Ports → EspErr × List ℕ × ℕ × Ports
port_sensors_scan_i2c io room s =
    let (err, s1) = i2c_bus_install io s in
    let (found, count, s2) = scan_from io room 117 0x03 [] 0 s1 in
    if not (is_ok err) then (err, [], 0, s1) else (esp_ok, found, count, s2)

-- A round of the loop of port_sensors_init.
unfoldable pub init_port : I2c → ℕ → Ports → Ports
init_port io id s =
    let (e1, s1) = i2c_probe_address io (i2c_address id) s in
    let (e2, s2) = ina219_configure io (i2c_address id) s1 in
    if not (is_ok e1) then set_present id false s1 else set_present id (is_ok e2) s2

unfoldable pub init_from : I2c → ℕ → ℕ → Ports → Ports
init_from io zero id s = s
init_from io (suc n) id s = init_from io n (id + 1) (init_port io id s)

unfoldable pub port_sensors_init : I2c → Ports → EspErr × Ports
port_sensors_init io s =
    let (err, s1) = i2c_bus_install io s in
    let (scan_err, found, count, s2) = port_sensors_scan_i2c io 0 s1 in
    if s.initialized
    then (esp_ok, s)
    else if not (is_ok err)
    then (err, s1)
    else (esp_ok, record (init_from io port_sensor_count 0 s2) { initialized = true })
