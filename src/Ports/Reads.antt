-- ===== src/Ports/Reads.antt =====
-- port_sensors_read and port_sensors_read_all of main/port_sensors.c. The current is the register's word,
-- an int16_t in units of 0.1 mA; the voltage is in units of 4 mV.
pub mod Outcome
use esp32_wifi_ap_cp.Base.{
  ℕ, zero, suc, ◌+◌, ◌/◌, ◌%◌, ◌^◌, Bool, true, false, not, ◌&&◌, List, [], ◌∷◌, ◌++◌,
  if◌then◌else◌, ltb, leb,
}
use esp32_wifi_ap_cp.Base.Errors.{EspErr, esp_ok, esp_err_invalid_arg, esp_err_invalid_state, is_ok}
use esp32_wifi_ap_cp.Ports.Bus.{
  port_sensor_count, reg_bus_voltage, reg_current, reg_calibration, ina219_calibration, Status,
  not_ready, available, in_use, fault, i2c_address, mosfet_gpio, I2c, Ports, set_present,
  ina219_write_u16, ina219_read_u16, ensure_sensor_ready,
}

-- port_sensor_reading_t
pub record Reading : Type 0 where
  pub id : ℕ
  pub status : Status
  pub address : ℕ
  pub gpio : ℕ
  pub current : ℕ
  pub bus_voltage : ℕ

abbrev pub fill_not_ready_reading : ℕ → Reading
fill_not_ready_reading id =
    if ltb id port_sensor_count
    then record {
      id = id;
      status = not_ready;
      address = i2c_address id;
      gpio = mosfet_gpio id;
      current = 0;
      bus_voltage = 0;
    }
    else record { id = 0; status = not_ready; address = 0; gpio = 0; current = 0; bus_voltage = 0 }

-- PORT_IN_USE_THRESHOLD_MA
abbrev pub in_use_threshold : ℕ
in_use_threshold = 500

-- (int16_t)raw * 0.1f > 50.0f: a word from 2 ^ 15 on is negative.
unfoldable pub occupancy : ℕ → Status
occupancy raw = if ltb raw (2 ^ 15) && ltb in_use_threshold raw then in_use else available

abbrev pub faulty : ℕ → Reading
faulty id = record (fill_not_ready_reading id) { status = fault }

abbrev pub measured : ℕ → ℕ → ℕ → Reading
measured id bus_raw current_raw = record (fill_not_ready_reading id) {
  status = occupancy current_raw;
  current = current_raw;
  bus_voltage = bus_raw / 2 ^ 3 % 2 ^ 13;
}

-- The transfers of a read, once the sensor is ready.
unfoldable pub read_ready : I2c → ℕ → Ports → EspErr × Reading × Ports
read_ready io id s =
    let (e1, s1) = ina219_write_u16 io (i2c_address id) reg_calibration ina219_calibration s in
    let (e2, bus_raw, s2) = ina219_read_u16 io (i2c_address id) reg_bus_voltage s1 in
    let (e3, current_raw, s3) = ina219_read_u16 io (i2c_address id) reg_current s2 in
    if not (is_ok e1)
    then (e1, faulty id, set_present id false s1)
    else if not (is_ok e2)
    then (e2, faulty id, set_present id false s2)
    else if not (is_ok e3)
    then (e3, faulty id, set_present id false s3)
    else (esp_ok, measured id bus_raw current_raw, s3)

unfoldable pub port_sensors_read : I2c → ℕ → Ports → EspErr × Reading × Ports
port_sensors_read io id s =
    let (err, s1) = ensure_sensor_ready io id s in
    if leb port_sensor_count id
    then (esp_err_invalid_arg, fill_not_ready_reading id, s)
    else if not s.initialized
    then (esp_err_invalid_state, fill_not_ready_reading id, s)
    else if not (is_ok err)
    then (err, faulty id, s1)
    else read_ready io id s1

abbrev pub first_of : EspErr → EspErr → EspErr
first_of first_err err = if is_ok first_err then err else first_err

-- The loop: `n` ports from `id` on are left; the first error, and the readings.
unfoldable pub read_from :
    I2c → ℕ → ℕ → EspErr → List Reading → Ports → EspErr × List Reading × Ports
read_from io zero id first_err out s = (first_err, out, s)
read_from io (suc n) id first_err out s =
    let (err, r, s1) = port_sensors_read io id s in
    read_from io n (id + 1) (first_of first_err err) (out ++ (r ∷ [])) s1

unfoldable pub port_sensors_read_all : I2c → Ports → EspErr × List Reading × Ports
port_sensors_read_all io s = read_from io port_sensor_count 0 esp_ok [] s
