-- ===== src/Config/Boot.antt =====
-- The settings at the start: app_main and wifi_init of main/esp32_nat_router.c.
pub mod Settings
use esp32_wifi_ap_cp.Base.{
  ℕ, ◌+◌, ◌-◌, ◌%◌, Bool, true, false, not, ◌&&◌, Option, none, some, List, [], ◌∷◌, if◌then◌else◌,
  ltb, length, is_empty, is_some, take,
}
use esp32_wifi_ap_cp.Config.Store.{
  Key, Values, Nvs, Store, get_config_param_str, get_config_param_blob,
}
use esp32_wifi_ap_cp.Portal.Sessions.{strlcpy}

-- The globals that app_main fills.
pub record Config : Type 0 where
  pub mac : Option (List ℕ)
  pub ssid : List ℕ
  pub ent_username : List ℕ
  pub ent_identity : List ℕ
  pub passwd : List ℕ
  pub static_ip : List ℕ
  pub subnet_mask : List ℕ
  pub gateway_addr : List ℕ
  pub ap_mac : Option (List ℕ)
  pub ap_ssid : List ℕ
  pub ap_passwd : List ℕ
  pub ap_ip : List ℕ

-- "SOLAR CONNECT" and "192.168.4.1"
abbrev pub default_ap_ssid : List ℕ
default_ap_ssid =
    b'S' ∷ b'O' ∷ b'L' ∷ b'A' ∷ b'R' ∷ b' ' ∷ b'C' ∷ b'O' ∷ b'N' ∷ b'N' ∷ b'E' ∷ b'C' ∷ b'T' ∷ []

abbrev pub default_ap_ip : List ℕ
default_ap_ip = b'1' ∷ b'9' ∷ b'2' ∷ b'.' ∷ b'1' ∷ b'6' ∷ b'8' ∷ b'.' ∷ b'4' ∷ b'.' ∷ b'1' ∷ []

abbrev pub param_or : List ℕ → Option (List ℕ) → List ℕ
param_or d none = d
param_or d (some v) = v

-- A value that is read changes nothing but the handles.
abbrev pub str_param : Nvs → Store → Key → List ℕ → List ℕ
str_param nvs s k d = param_or d (get_config_param_str nvs k s).1

abbrev pub blob_param : Nvs → Store → Key → ℕ → Option (List ℕ)
blob_param nvs s k n = (get_config_param_blob nvs k n s).1

unfoldable pub load_config : Nvs → Store → Config
load_config nvs s = record {
  mac = blob_param nvs s Key.mac 6;
  ssid = str_param nvs s Key.ssid [];
  ent_username = str_param nvs s Key.ent_username [];
  ent_identity = str_param nvs s Key.ent_identity [];
  passwd = str_param nvs s Key.passwd [];
  static_ip = str_param nvs s Key.static_ip [];
  subnet_mask = str_param nvs s Key.subnet_mask [];
  gateway_addr = str_param nvs s Key.gateway_addr [];
  ap_mac = blob_param nvs s Key.ap_mac 6;
  ap_ssid = str_param nvs s Key.ap_ssid default_ap_ssid;
  ap_passwd = str_param nvs s Key.ap_passwd [];
  ap_ip = str_param nvs s Key.ap_ip default_ap_ip;
}

-- The enterprise log-in that is set up: identity, user name and password.
pub record Enterprise : Type 0 where
  pub identity : List ℕ
  pub username : List ℕ
  pub password : List ℕ

-- What wifi_init sets. `authmode_open` is WIFI_AUTH_OPEN, otherwise WPA2/WPA3; `station` is APSTA mode,
-- with what is set for the station.
pub record WifiSetup : Type 0 where
  pub has_static_ip : Bool
  pub ap_ssid : List ℕ
  pub ap_ssid_len : ℕ
  pub authmode_open : Bool
  pub ap_password : List ℕ
  pub station : Bool
  pub sta_ssid : List ℕ
  pub sta_password : List ℕ
  pub enterprise : Option Enterprise
  pub sta_mac : Option (List ℕ)
  pub ap_mac : Option (List ℕ)

abbrev pub enterprise_of : Config → Option Enterprise
enterprise_of c =
    if not (is_empty c.ent_username) && not (is_empty c.ent_identity)
    then some (record { identity = c.ent_identity; username = c.ent_username; password = c.passwd })
    else none

unfoldable pub wifi_init : Config → WifiSetup
wifi_init c =
    let station = not (is_empty c.ssid) in
    let unsafe = ltb (length c.ap_passwd) 8 in
    record {
      has_static_ip =
          station
          && not (is_empty c.static_ip)
          && not (is_empty c.subnet_mask)
          && not (is_empty c.gateway_addr);
      ap_ssid = strlcpy 32 c.ap_ssid;
      ap_ssid_len = length c.ap_ssid % 256;
      authmode_open = unsafe;
      ap_password = if unsafe then [] else strlcpy 64 c.ap_passwd;
      station = station;
      sta_ssid = if station then strlcpy 32 c.ssid else [];
      sta_password = if station && is_empty c.ent_username then strlcpy 64 c.passwd else [];
      enterprise = if station then enterprise_of c else none;
      sta_mac = if station then c.mac else none;
      ap_mac = c.ap_mac;
    }
