-- ===== src/Wifi/Uplink.antt =====
-- What the events of main/esp32_nat_router.c, in any order, keep of the whole access point.
use esp32_wifi_ap_cp.Base.{
  ℕ, ◌+◌, ◌-◌, ◌^◌, ◌<◌, ◌≡◌, refl, ◌∙◌, sym, Bool, true, false, Option, none, some, List, [], ◌∷◌,
  arith, if◌then◌else◌, ◌==◌, inl, inr, Bool-cases,
}
use esp32_wifi_ap_cp.Portal.Quota.{Env}
use esp32_wifi_ap_cp.Portal.State.{Portal}
use esp32_wifi_ap_cp.Portal.State.Refreshing.{PortalInv}
use esp32_wifi_ap_cp.Portal.Events.Keeping.{
  connect-PortalInv, assigned-PortalInv, disconnect-PortalInv,
}
use esp32_wifi_ap_cp.Portal.Pages.{start_webserver}
use esp32_wifi_ap_cp.Portal.Pages.Reachable.{webserver-PortalInv, webserver_link}
use esp32_wifi_ap_cp.Portal.Events.Link.{connect_link, assigned_link, disconnect_link}
use esp32_wifi_ap_cp.Portmap.{apply_portmap_tab, delete_portmap_tab}
use esp32_wifi_ap_cp.Wifi.{WifiEvent, Wifi, set_count, wifi_event_handler}
use WifiEvent.{
  sta_start, sta_disconnected, other_event, sta_got_ip, ap_sta_connected, ap_sta_ip_assigned,
  ap_sta_disconnected,
}

-- Without an uplink the router has no address, and the event group's bit is the uplink's state.
record UplinkInv (w : Wifi) : Type 0 where
  pub no_address : w.portal.ap_connect ≡ false → w.router.my_ip ≡ 0
  pub bit : w.connected_bit ≡ w.portal.ap_connect

-- The portal's tables are well formed, too.
pub record WifiInv (w : Wifi) : Type 0 where
  pub portal : PortalInv w.portal
  pub no_address : w.portal.ap_connect ≡ false → w.router.my_ip ≡ 0
  pub bit : w.connected_bit ≡ w.portal.ap_connect

with_count-PortalInv : (n : ℕ) (p : Portal) → PortalInv p → PortalInv (set_count n p)
with_count-PortalInv n p v = record { slots = v.slots; quota = v.quota; acl = v.acl }

with_uplink-PortalInv :
    (b : Bool) (p : Portal) → PortalInv p → PortalInv (record p { ap_connect = b })
with_uplink-PortalInv b p v = record { slots = v.slots; quota = v.quota; acl = v.acl }

event-PortalInv :
    (env : Env) (e : WifiEvent) (w : Wifi)
    → PortalInv w.portal
    → PortalInv (wifi_event_handler env e w).portal
unfolding wifi_event_handler
event-PortalInv env sta_start w v = v
event-PortalInv env sta_disconnected w v = with_uplink-PortalInv false w.portal v
event-PortalInv env (sta_got_ip ip) w v = with_uplink-PortalInv true w.portal v
event-PortalInv env (ap_sta_connected mac) w v =
    connect-PortalInv env mac _ (with_count-PortalInv _ w.portal v)
event-PortalInv env (ap_sta_ip_assigned mac ip) w v = assigned-PortalInv env mac ip w.portal v
event-PortalInv env (ap_sta_disconnected mac) w v =
    disconnect-PortalInv env mac _ (with_count-PortalInv _ w.portal v)
event-PortalInv env other_event w v = v

event-UplinkInv :
    (env : Env) (e : WifiEvent) (w : Wifi) → UplinkInv w → UplinkInv (wifi_event_handler env e w)
unfolding wifi_event_handler apply_portmap_tab delete_portmap_tab
event-UplinkInv env sta_start w v = record { no_address = v.no_address; bit = v.bit }
event-UplinkInv env sta_disconnected w v = record { no_address = λ _. refl; bit = refl }
event-UplinkInv env (sta_got_ip ip) w v = record { no_address = λ h. cc; bit = refl }
event-UplinkInv env (ap_sta_connected mac) w v =
    let link = connect_link env mac (set_count (w.portal.connect_count + 1) w.portal) in
    record { no_address = ground (arith, link, v.no_address); bit = ground (arith, link, v.bit) }
event-UplinkInv env (ap_sta_ip_assigned mac ip) w v =
    let link = assigned_link env mac ip w.portal in
    record { no_address = ground (arith, link, v.no_address); bit = ground (arith, link, v.bit) }
event-UplinkInv env (ap_sta_disconnected mac) w v =
    let link = disconnect_link env mac (set_count (w.portal.connect_count + 2 ^ 16 - 1) w.portal) in
    record { no_address = ground (arith, link, v.no_address); bit = ground (arith, link, v.bit) }
event-UplinkInv env other_event w v = v

abbrev pub events : List (Env × WifiEvent) → Wifi → Wifi
events [] w = w
events ((env, e) ∷ es) w = events es (wifi_event_handler env e w)

events-PortalInv :
    (es : List (Env × WifiEvent)) (w : Wifi) → PortalInv w.portal → PortalInv (events es w).portal
events-PortalInv [] w v = v
events-PortalInv ((env, e) ∷ es) w v =
    events-PortalInv es (wifi_event_handler env e w) (event-PortalInv env e w v)

events-UplinkInv : (es : List (Env × WifiEvent)) (w : Wifi) → UplinkInv w → UplinkInv (events es w)
events-UplinkInv [] w v = v
events-UplinkInv ((env, e) ∷ es) w v =
    events-UplinkInv es (wifi_event_handler env e w) (event-UplinkInv env e w v)

-- start_webserver, of what it does to the globals.
abbrev pub with_webserver : Env → Wifi → Wifi
with_webserver env w = record w { portal = start_webserver env w.portal }

-- From boot on, with the uplink down, no address and the event group's bit clear: whatever Wi-Fi events come
-- before start_webserver and after it, in any order, each handled at a time and with answers of its own,
-- the portal's tables are well formed from start_webserver on, the router has no address while the
-- uplink is down, and the event group's bit is the uplink's state.
pub boot-WifiInv :
    (before after : List (Env × WifiEvent)) (env : Env) (w : Wifi)
    → w.portal.ap_connect ≡ false
    → w.router.my_ip ≡ 0
    → w.connected_bit ≡ false
    → WifiInv (events after (with_webserver env (events before w)))
boot-WifiInv before after env w up ip bit = record {
  portal = events-PortalInv after w2 (webserver-PortalInv env w1.portal);
  no_address = v2.no_address;
  bit = v2.bit;
}
  where
    w1 : Wifi
    w1 = events before w

    w2 : Wifi
    w2 = with_webserver env w1

    v1 : UplinkInv w1
    v1 = events-UplinkInv before w (record { no_address = λ h. ip; bit = bit ∙ sym up })

    link : w2.portal.ap_connect ≡ w1.portal.ap_connect
    link = (webserver_link env w1.portal).0

    v2 : UplinkInv (events after w2)
    v2 =
        events-UplinkInv after w2
          (record { no_address = λ h. v1.no_address (sym link ∙ h); bit = v1.bit ∙ sym link })

-- The stations after some events, from `n` on: none where more leave than are there, or more come than
-- 16 bits count.
abbrev pub stations : ℕ → List (Env × WifiEvent) → Option ℕ
stations n [] = some n
stations n ((env, ap_sta_connected mac) ∷ es) =
    let rest = stations (n + 1) es in if n + 1 == 2 ^ 16 then none else rest
stations n ((env, ap_sta_disconnected mac) ∷ es) =
    let rest = stations (n - 1) es in if n == 0 then none else rest
stations n ((env, sta_start) ∷ es) = stations n es
stations n ((env, sta_disconnected) ∷ es) = stations n es
stations n ((env, other_event) ∷ es) = stations n es
stations n ((env, sta_got_ip ip) ∷ es) = stations n es
stations n ((env, ap_sta_ip_assigned mac ip) ∷ es) = stations n es

joined_count :
    (env : Env) (mac n : ℕ) (w : Wifi)
    → w.portal.connect_count ≡ n
    → n + 1 < 2 ^ 16
    → (wifi_event_handler env (ap_sta_connected mac) w).portal.connect_count ≡ n + 1
unfolding wifi_event_handler
joined_count env mac n w e l =
    omega (arith, connect_link env mac (set_count (w.portal.connect_count + 1) w.portal))

left_count :
    (env : Env) (mac n : ℕ) (w : Wifi)
    → w.portal.connect_count ≡ n
    → n < 2 ^ 16
    → 0 < n
    → (wifi_event_handler env (ap_sta_disconnected mac) w).portal.connect_count ≡ n - 1
unfolding wifi_event_handler
left_count env mac n w e l p =
    omega
      (arith, disconnect_link env mac (set_count (w.portal.connect_count + 2 ^ 16 - 1) w.portal))

-- connect_count is the number of stations, as long as no station leaves that has not come, and no more
-- come than 16 bits count.
pub count_is_stations :
    (es : List (Env × WifiEvent)) (n m : ℕ) (w : Wifi)
    → w.portal.connect_count ≡ n
    → n < 2 ^ 16
    → stations n es ≡ some m
    → (events es w).portal.connect_count ≡ m
unfolding wifi_event_handler
count_is_stations [] n m w e l h = ground arith
count_is_stations ((env, ap_sta_connected mac) ∷ es) n m w e l h =
    elim (Bool-cases (n + 1 == 2 ^ 16)) [
      | inl full ↦ ground (arith, h, full)
      | inr room ↦
          count_is_stations es (n + 1) m (wifi_event_handler env (ap_sta_connected mac) w)
            (joined_count env mac n w e (ground arith)) (ground arith) (ground (arith, h, room))
    ]
count_is_stations ((env, ap_sta_disconnected mac) ∷ es) n m w e l h = elim (Bool-cases (n == 0)) [
  | inl empty ↦ ground (arith, h, empty)
  | inr some_left ↦
      count_is_stations es (n - 1) m (wifi_event_handler env (ap_sta_disconnected mac) w)
        (left_count env mac n w e l (ground arith)) (omega arith) (ground (arith, h, some_left))
]
count_is_stations ((env, sta_start) ∷ es) n m w e l h =
    count_is_stations es n m (wifi_event_handler env sta_start w) e l h
count_is_stations ((env, sta_disconnected) ∷ es) n m w e l h =
    count_is_stations es n m (wifi_event_handler env sta_disconnected w) e l h
count_is_stations ((env, other_event) ∷ es) n m w e l h = count_is_stations es n m w e l h
count_is_stations ((env, sta_got_ip ip) ∷ es) n m w e l h =
    count_is_stations es n m (wifi_event_handler env (sta_got_ip ip) w) e l h
count_is_stations ((env, ap_sta_ip_assigned mac ip) ∷ es) n m w e l h =
    count_is_stations es n m (wifi_event_handler env (ap_sta_ip_assigned mac ip) w)
      ((assigned_link env mac ip w.portal).1 ∙ e) l h
