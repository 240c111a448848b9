-- ===== src/Examples/Uplinks.antt =====
-- The theorem on the Wi-Fi events of esp32_nat_router.c, on the example's portal.
use esp32_wifi_ap_cp.Base.{false, none, List, [], ◌∷◌, refl}
use esp32_wifi_ap_cp.Portal.Quota.{Env}
use esp32_wifi_ap_cp.Wifi.{WifiEvent, Wifi}
use esp32_wifi_ap_cp.Wifi.Uplink.{WifiInv, events, with_webserver, boot-WifiInv}
use esp32_wifi_ap_cp.Examples.{laptop_mac, laptop_ip, env_at, busy}

abbrev at_boot : Wifi
at_boot = record {
  portal = record busy { ap_connect = false };
  router = record { portmap_tab = []; stored = none; my_ip = 0; calls = [] };
  last_ap_client_mac = none;
  connected_bit = false;
  time_sync_started = false;
  connects = 0;
}

-- The uplink comes up, a laptop comes, and the uplink is lost and found again.
abbrev evening : List (Env × WifiEvent)
evening =
    (env_at 200, WifiEvent.ap_sta_connected laptop_mac)
    ∷ (env_at 201, WifiEvent.ap_sta_ip_assigned laptop_mac laptop_ip)
    ∷ (env_at 300, WifiEvent.sta_disconnected)
    ∷ (env_at 310, WifiEvent.sta_got_ip 0x0A00000B)
    ∷ []

abbrev starting : List (Env × WifiEvent)
starting = (env_at 1, WifiEvent.sta_start) ∷ (env_at 3, WifiEvent.sta_got_ip 0x0A00000A) ∷ []

boot-WifiInv_example :
    WifiInv (events evening (with_webserver (env_at 5) (events starting at_boot)))
boot-WifiInv_example = boot-WifiInv starting evening (env_at 5) at_boot refl refl refl
