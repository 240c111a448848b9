-- ===== src/Examples/Sensors.antt =====
-- The theorems on port_sensors.c, on four ports of which the first is present.
use esp32_wifi_ap_cp.Base.{
  ℕ, ◌≡◌, refl, Bool, true, none, List, [], ◌∷◌, arith, replicate, length, All, ◌++◌,
}
use esp32_wifi_ap_cp.Base.Errors.{esp_ok}
use esp32_wifi_ap_cp.Ports.Bus.{Status, in_use, I2c, Port, Push, Ports, no_port}
use esp32_wifi_ap_cp.Ports.Sync.{reset_port, Round, sync_round}
use esp32_wifi_ap_cp.Ports.Reads.{port_sensors_read_all}
use esp32_wifi_ap_cp.Ports.Sync.Counting.{polls, frequent_polls_count_nothing}
use esp32_wifi_ap_cp.Ports.Sync.Runs.{IsFresh, round_sends_what_is_read}

abbrev plugged : Port
plugged = record no_port { present = true }

-- Every 500 ms, in use each time.
abbrev two_polls : List (ℕ × Status × Bool)
two_polls = (10500, in_use, true) ∷ (11000, in_use, true) ∷ []

frequent_polls_count_nothing_example :
    (polls 0 ((10000, in_use, true) ∷ two_polls) (reset_port plugged)).daily_in_use_seconds ≡ 0
frequent_polls_count_nothing_example =
    frequent_polls_count_nothing 0 10000 in_use true two_polls plugged refl refl
      (omega arith, refl, (omega arith, refl, tt))

-- Every transfer succeeds, and reads 0x0400: 102.4 mA.
abbrev bus : I2c
bus = record {
  param_config = esp_ok;
  driver_install = esp_ok;
  probe = λ n addr. esp_ok;
  write = λ n addr bytes. esp_ok;
  read = λ n addr reg. (esp_ok, 4, 0);
}

abbrev sensors : Ports
sensors = record {
  initialized = true;
  i2c_installed = true;
  sync_task_started = true;
  utc_day_anchor = none;
  ports = replicate 4 plugged;
  transfers = 0;
  pushes = [];
}

abbrev round_at : ℕ → Round
round_at ms = record { bus = bus; now_ms = ms; now = 86400; post_ok = λ id. true }

round_sends_what_is_read_example :
    let (err, readings, s1) = port_sensors_read_all bus sensors in
    (new : List Push) × ((sync_round (round_at 10000) sensors).pushes ≡ new ++ [])
    × All (IsFresh readings s1) new
    × (length (sync_round (round_at 10000) sensors).ports ≡ 4)
round_sends_what_is_read_example = round_sends_what_is_read (round_at 10000) sensors
