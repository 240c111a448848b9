-- ===== src/Examples/Meters.antt =====
-- The theorems on pzem_reader.c, on a meter that has just been set up.
use esp32_wifi_ap_cp.Base.{
  ℕ, ◌+◌, ◌≡◌, refl, true, false, none, List, [], ◌∷◌, arith, length, take, All,
}
use esp32_wifi_ap_cp.Base.Errors.{esp_ok}
use esp32_wifi_ap_cp.Pzem.Frames.{
  Uart, Reading, no_reading, response_bytes, crc_bit, crc_bits, crc_from, func_read_input, byte_at,
  pzem_modbus_crc16, pzem_v3_read,
}
use esp32_wifi_ap_cp.Pzem.Frames.Crc.{IsByte}
use esp32_wifi_ap_cp.Pzem.Frames.Replies.{
  with_crc, reply_body, reply_is_read, accepted_reply_verifies,
}
use esp32_wifi_ap_cp.Pzem.Meter.{Meter, energy_wh_today}
use esp32_wifi_ap_cp.Pzem.Meter.Energy.{later_reads, total, energy_since_first_reading}
use esp32_wifi_ap_cp.Pzem.Meter.Outlet.{OutletInv, pzem_rounds, rounds-OutletInv}

-- 230.1 V, 500 mA, 115.0 W, 70000 Wh.
abbrev reply : Uart
reply = record {
  written = true;
  received = with_crc (reply_body 1 2301 500 1150 70000 500 100 0) [];
}

abbrev reading : Reading
reading = record { voltage = 2301; current = 500; power = 1150; energy_wh = 70000; valid = true }

reply_is_read_example : pzem_v3_read reply ≡ (esp_ok, reading)
reply_is_read_example =
    reply_is_read 1 2301 500 1150 70000 500 100 0 [] (omega arith) (omega arith) (omega arith)
      (omega arith)

received_bytes : All IsByte reply.received
unfolding pzem_modbus_crc16 crc_from crc_bits crc_bit
received_bytes = ground arith

accepted_reply_verifies_example :
    let resp = take response_bytes reply.received in
    (length resp ≡ response_bytes)
    × (pzem_modbus_crc16 resp ≡ 0)
    × (byte_at resp 1 ≡ func_read_input)
accepted_reply_verifies_example =
    accepted_reply_verifies reply reading received_bytes reply_is_read_example

abbrev meter : Meter
meter = record {
  initialized = true;
  last_reading = no_reading;
  last_reading_valid = false;
  energy_wh_at_midnight = 0;
  utc_day_anchor = none;
  anchor_valid = false;
  last_outlet_in_use = false;
  last_outlet_published = false;
  posts = [];
}

abbrev day_of_readings : List (ℕ × ℕ)
day_of_readings = (86500, 10) ∷ (86600, 25) ∷ []

energy_since_first_reading_example :
    let (counter, m1) = later_reads day_of_readings 70000 (energy_wh_today 86400 70000 meter).1 in
    (energy_wh_today 86700 (counter + 5) m1).0 ≡ total day_of_readings + 5
energy_since_first_reading_example =
    energy_since_first_reading 86400 86700 70000 5 day_of_readings meter refl (refl, (refl, tt))
      refl

rounds-OutletInv_example : OutletInv (pzem_rounds ((86400, reply) ∷ (86410, reply) ∷ []) meter)
rounds-OutletInv_example =
    rounds-OutletInv ((86400, reply) ∷ (86410, reply) ∷ []) meter refl refl refl
