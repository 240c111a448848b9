-- ===== src/Wifi.antt =====
-- The Wi-Fi events of main/esp32_nat_router.c: the uplink, the stations, and what they call of the portal
-- and of the port mappings.
pub mod Uplink
use esp32_wifi_ap_cp.Base.{
  ℕ, ◌+◌, ◌-◌, ◌%◌, ◌^◌, Bool, true, false, ◌&&◌, Option, none, some, List, [], ◌∷◌, if◌then◌else◌,
  ◌==◌,
}
use esp32_wifi_ap_cp.Portal.Quota.{Env}
use esp32_wifi_ap_cp.Portal.State.{Portal}
use esp32_wifi_ap_cp.Portal.Events.{
  handle_client_connect, handle_client_ip_assigned, handle_client_disconnect,
}
use esp32_wifi_ap_cp.Portmap.{Router, apply_portmap_tab, delete_portmap_tab}

-- The events that wifi_event_handler tells apart, with the MAC and the address that they bring.
pub data WifiEvent : Type 0 where
  sta_start sta_disconnected other_event : WifiEvent
  sta_got_ip : ℕ → WifiEvent
  ap_sta_connected : ℕ → WifiEvent
  ap_sta_ip_assigned : ℕ → ℕ → WifiEvent
  ap_sta_disconnected : ℕ → WifiEvent

-- The globals of esp32_nat_router.c; ap_connect and connect_count are those of the portal, my_ip that
-- of the port mappings. `connects` counts the calls of esp_wifi_connect, and `connected_bit` is that of the
-- event group.
pub record Wifi : Type 0 where
  pub portal : Portal
  pub router : Router
  pub last_ap_client_mac : Option ℕ
  pub connected_bit : Bool
  pub time_sync_started : Bool
  pub connects : ℕ

abbrev pub ensure_time_sync_started : Wifi → Wifi
ensure_time_sync_started w = record w { time_sync_started = true }

abbrev pub set_uplink : Bool → ℕ → Wifi → Wifi
set_uplink up ip w = record w {
  portal = record w.portal { ap_connect = up };
  router = record w.router { my_ip = ip };
  connected_bit = up;
}

abbrev pub forget_mac : ℕ → Option ℕ → Option ℕ
forget_mac mac none = none
forget_mac mac (some m) = if m == mac then none else some m

-- connect_count is a uint16_t.
abbrev pub set_count : ℕ → Portal → Portal
set_count n p = record p { connect_count = n % 2 ^ 16 }

unfoldable pub wifi_event_handler : Env → WifiEvent → Wifi → Wifi
wifi_event_handler env sta_start w = record w { connects = w.connects + 1 }
wifi_event_handler env sta_disconnected w = record (set_uplink false 0 w) {
  connects = w.connects + 1;
}
wifi_event_handler env (sta_got_ip ip) w =
    let w1 = set_uplink true ip w in
    ensure_time_sync_started
      (record w1 { router = apply_portmap_tab (delete_portmap_tab w1.router) })
wifi_event_handler env (ap_sta_connected mac) w = record w {
  portal = handle_client_connect env mac (set_count (w.portal.connect_count + 1) w.portal);
  last_ap_client_mac = some mac;
}
wifi_event_handler env (ap_sta_ip_assigned mac ip) w = record w {
  portal = handle_client_ip_assigned env mac ip w.portal;
}
wifi_event_handler env (ap_sta_disconnected mac) w = record w {
  portal =
      handle_client_disconnect env mac (set_count (w.portal.connect_count + 2 ^ 16 - 1) w.portal);
  last_ap_client_mac = forget_mac mac w.last_ap_client_mac;
}
wifi_event_handler env other_event w = w
