-- ===== src/Examples.antt =====
-- A small access point to try the theorems on: two clients, one session, at two readings of the clock.
pub mod Clients
pub mod Portals
pub mod Packets
pub mod Names
pub mod Batteries
pub mod Mappings
pub mod Cards
pub mod Meters
pub mod Sensors
pub mod Settings
pub mod Uplinks
pub mod Pages
pub mod Admins
pub mod Requests
use esp32_wifi_ap_cp.Base.{
  ℕ, ◌*◌, ◌+◌, ◌≡◌, refl, true, false, Option, none, some, List, [], ◌∷◌, arith, length, replicate,
  All, All-replicate,
}
use esp32_wifi_ap_cp.Acl.{AclEntry, client_acl_init, client_acl_admit}
use esp32_wifi_ap_cp.Acl.Invariant.{AclInv, client_acl_init-AclInv, client_acl_admit-AclInv}
use esp32_wifi_ap_cp.Portal.Quota.{Env, Quota, no_record, max_clients}
use esp32_wifi_ap_cp.Portal.Quota.Usage.{QuotaInv, IsRecord, no_record-IsRecord}
use esp32_wifi_ap_cp.Portal.Sessions.{Session, no_session}
use esp32_wifi_ap_cp.Portal.State.{Portal}
use esp32_wifi_ap_cp.Portal.State.Refreshing.{PortalInv}
use esp32_wifi_ap_cp.Portal.Start.{Client}
use esp32_wifi_ap_cp.Hook.{Packet, Netif}

-- 192.168.4.1, .2 and .3
abbrev pub ap_ip : ℕ
ap_ip = 0x0104A8C0

abbrev pub phone_ip : ℕ
phone_ip = 0x0204A8C0

abbrev pub laptop_ip : ℕ
laptop_ip = 0x0304A8C0

abbrev pub phone_mac : ℕ
phone_mac = 0xAABBCCDDEE01

abbrev pub laptop_mac : ℕ
laptop_mac = 0xAABBCCDDEE02

-- `s` seconds after the start.
abbrev pub env_at : ℕ → Env
env_at s = record {
  now = s * 1_000_000;
  wall = 1_750_000_000 + s;
  nvs_open_ok = true;
  nvs_set_blob_ok = true;
  nvs_set_u32_ok = true;
  nvs_commit_ok = true;
  napt_enable_ok = true;
  napt_disable_ok = true;
  queue_create_ok = true;
  task_create_ok = true;
  stations = some (phone_mac ∷ []);
  leases = λ macs. some (phone_ip ∷ []);
  new_token = 116 ∷ [];
  hash_from_mac = λ mac. 104 ∷ [];
}

-- A session of 3600 seconds that began at second 10, of which 100 are charged.
abbrev pub phone_session : Session
phone_session = record {
  ip_addr = phone_ip;
  mac = phone_mac;
  token = 116 ∷ [];
  device_hash = 104 ∷ [];
  end_time = 3610 * 1_000_000;
  start_time = 10 * 1_000_000;
  granted_seconds = 3600;
  accounted_seconds = 100;
  day_id = 20254;
  admitted = true;
  active = true;
}

abbrev pub empty_quota : Quota
empty_quota = record {
  records = replicate max_clients no_record;
  dirty = false;
  day_hint = 0;
  last_flush = 0;
  stored = none;
}

abbrev pub phone_acl : List AclEntry
phone_acl = client_acl_admit phone_ip (some phone_mac) client_acl_init

abbrev pub busy : Portal
busy = record {
  sessions = phone_session ∷ replicate 19 no_session;
  quota = empty_quota;
  acl = phone_acl;
  napt_enabled = true;
  global_end_time = 0;
  portal_authenticated = true;
  queue = some [];
  update_task_started = true;
  ap_connect = true;
  connect_count = 1;
}

pub empty_quota-QuotaInv : QuotaInv empty_quota
empty_quota-QuotaInv = record {
  size = refl;
  each = All-replicate IsRecord max_clients no_record no_record-IsRecord;
}

pub phone_acl-AclInv : AclInv phone_acl
phone_acl-AclInv =
    client_acl_admit-AclInv phone_ip (some phone_mac) client_acl_init client_acl_init-AclInv

pub busy-PortalInv : PortalInv busy
busy-PortalInv = record { slots = refl; quota = empty_quota-QuotaInv; acl = phone_acl-AclInv }

abbrev pub laptop : Client
laptop = record {
  ip = laptop_ip;
  mac = some laptop_mac;
  token = 108 ∷ [];
  device_hash = 105 ∷ [];
  granted_seconds = 600;
}

abbrev pub ap_netif : Netif
ap_netif = record { ip4_addr = ap_ip; is_broadcast = λ a. false; is_multicast = λ a. false }

-- A TCP packet to port 443 of 8.8.8.8.
abbrev pub outbound : ℕ → Packet
outbound src = record {
  len = 60;
  header_len = 20;
  fragment_offset = 0;
  proto = 6;
  src = src;
  dest = 0x08080808;
  chksum = 0;
  dest_port = 443;
  transport_chksum = 0;
}
