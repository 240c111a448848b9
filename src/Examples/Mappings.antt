-- ===== src/Examples/Mappings.antt =====
-- The theorems on the port mappings of esp32_nat_router.c, on a table with one mapping.
use esp32_wifi_ap_cp.Base.{
  ℕ, ◌%◌, ◌^◌, ◌≢◌, some, List, arith, ◌≡◌, refl, Bool, true, none, [], ◌∷◌, exists_slot,
}
use esp32_wifi_ap_cp.Portmap.{
  PortmapEntry, esp_ok, Nvs, Router, zero_entry, get_portmap_tab, add_portmap,
}
use esp32_wifi_ap_cp.Base.Texts.{codes}
use esp32_wifi_ap_cp.Portmap.Command.{
  PortmapArgs, parse_add_del, parse_protocol, portmap, failed_portmap_reports_success,
}
use esp32_wifi_ap_cp.Portmap.Mappings.{maps_to, added_mapping_survives_reboot}

abbrev nvs_with : Bool → Nvs
nvs_with opens = record {
  open_ok = opens;
  set_blob_ok = true;
  commit_ok = true;
  get_blob_ok = true;
}

abbrev web : PortmapEntry
web = record { daddr = 0x0204A8C0; mport = 8080; dport = 80; proto = 6; valid = true }

abbrev router : Router
router = record {
  portmap_tab = web ∷ zero_entry ∷ zero_entry ∷ [];
  stored = none;
  my_ip = 0x0A00000A;
  calls = [];
}

added_mapping_survives_reboot_example :
    let (err, r1) = add_portmap (nvs_with true) 17 5000 0x0304A8C0 53 router in
    let (err', r2) =
      get_portmap_tab
        (nvs_with true)
        (record r1 { portmap_tab = zero_entry ∷ zero_entry ∷ zero_entry ∷ [] }) in
    (err ≡ esp_ok)
    × (err' ≡ esp_ok)
    × (r2.portmap_tab ≡ r1.portmap_tab)
    × (exists_slot (maps_to 17 5000 0x0304A8C0 53) r2.portmap_tab ≡ true)
added_mapping_survives_reboot_example =
    added_mapping_survives_reboot (nvs_with true) 17 5000 0x0304A8C0 53 router
      (zero_entry ∷ zero_entry ∷ zero_entry ∷ []) refl refl refl refl refl refl

abbrev full : Router
full = record router { portmap_tab = web ∷ [] }

-- portmap add TCP 5000 192.168.4.3 22
abbrev args : PortmapArgs
args = record {
  parsed = true;
  add_del = codes "add";
  tcp_udp = codes "TCP";
  ext_port = 5000;
  int_ip = codes "192.168.4.3";
  int_port = 22;
}

abbrev aton : List ℕ → ℕ
aton text = 0x0304A8C0

table_is_full :
    (add_portmap (nvs_with true) 6 (5000 % 2 ^ 16) (aton args.int_ip) (22 % 2 ^ 16) full).0 ≢ esp_ok
unfolding add_portmap
table_is_full e = ground (arith, e)

add_is_meant : parse_add_del args.add_del ≡ some true
unfolding parse_add_del
add_is_meant = refl

tcp_is_meant : parse_protocol args.tcp_udp ≡ some 6
unfolding parse_protocol
tcp_is_meant = refl

failed_portmap_reports_success_example :
    let (status, r1) = portmap (nvs_with true) aton args full in
    (status ≡ 0) × (r1.stored ≡ full.stored) × (r1.calls ≡ full.calls)
failed_portmap_reports_success_example =
    failed_portmap_reports_success (nvs_with true) aton args full 6 refl add_is_meant tcp_is_meant
      table_is_full
