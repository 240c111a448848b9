-- ===== src/Portmap/Command.antt =====
-- The console command portmap of components/cmd_router/cmd_router.c. arg_parse is argtable3's, and
-- esp_ip4addr_aton ESP-IDF's.
use esp32_wifi_ap_cp.Base.{
  ℕ, ◌%◌, ◌^◌, ◌≡◌, ◌≢◌, refl, Bool, true, false, Option, none, some, List, if◌then◌else◌, str_eq,
  Bool-cases, inl, inr, exists_slot,
}
use esp32_wifi_ap_cp.Base.Texts.{codes}
use esp32_wifi_ap_cp.Portmap.{Nvs, Router, esp_ok, add_portmap, del_portmap, is_unused}

-- What arg_parse reads of the arguments: the two words, the address, and the ports, each an int given by
-- its value modulo 2 ^ 32.
pub record PortmapArgs : Type 0 where
  pub parsed : Bool
  pub add_del : List ℕ
  pub tcp_udp : List ℕ
  pub ext_port : ℕ
  pub int_ip : List ℕ
  pub int_port : ℕ

unfoldable pub parse_add_del : List ℕ → Option Bool
parse_add_del word =
    if str_eq word (codes "add")
    then some true
    else if str_eq word (codes "del")
    then some false
    else none

unfoldable pub parse_protocol : List ℕ → Option ℕ
parse_protocol word =
    if str_eq word (codes "TCP")
    then some 6
    else if str_eq word (codes "UDP")
    then some 17
    else none

-- The command's status, which is 1 for arguments that it does not take; what add_portmap and del_portmap
-- return is dropped.
unfoldable pub run_portmap :
    Nvs → (List ℕ → ℕ) → Option Bool → Option ℕ → PortmapArgs → Router → ℕ × Router
run_portmap nvs aton none proto a r = (1, r)
run_portmap nvs aton (some add) none a r = (1, r)
run_portmap nvs aton (some true) (some proto) a r =
    (0, (add_portmap nvs proto (a.ext_port % 2 ^ 16) (aton a.int_ip) (a.int_port % 2 ^ 16) r).1)
run_portmap nvs aton (some false) (some proto) a r =
    (0, (del_portmap nvs proto (a.ext_port % 2 ^ 16) r).1)

unfoldable pub portmap : Nvs → (List ℕ → ℕ) → PortmapArgs → Router → ℕ × Router
portmap nvs aton a r =
    if a.parsed
    then run_portmap nvs aton (parse_add_del a.add_del) (parse_protocol a.tcp_udp) a r
    else (1, r)

failed_add_keeps :
    (nvs : Nvs) (proto mport daddr dport : ℕ) (r : Router)
    → (add_portmap nvs proto mport daddr dport r).0 ≢ esp_ok
    → let r1 = (add_portmap nvs proto mport daddr dport r).1 in
      (r1.stored ≡ r.stored) × (r1.calls ≡ r.calls)
unfolding add_portmap
failed_add_keeps nvs proto mport daddr dport r e =
    elim (Bool-cases (exists_slot is_unused r.portmap_tab)) [
      | inl f ↦ elim (Bool-cases nvs.open_ok) [
        | inl o ↦ absurd (e (rw (f, o) refl))
        | inr o ↦ rw (f, o) (refl, refl)
      ]
      | inr f ↦ rw f (refl, refl)
    ]

-- `portmap add` reports success also where add_portmap fails: the status is 0, and neither NVS nor NAPT has
-- been told of the mapping.
pub failed_portmap_reports_success :
    (nvs : Nvs) (aton : List ℕ → ℕ) (a : PortmapArgs) (r : Router) (proto : ℕ)
    → a.parsed ≡ true
    → parse_add_del a.add_del ≡ some true
    → parse_protocol a.tcp_udp ≡ some proto
    → (add_portmap nvs proto (a.ext_port % 2 ^ 16) (aton a.int_ip) (a.int_port % 2 ^ 16) r).0
      ≢ esp_ok
    → let (status, r1) = portmap nvs aton a r in
      (status ≡ 0) × (r1.stored ≡ r.stored) × (r1.calls ≡ r.calls)
unfolding portmap run_portmap
failed_portmap_reports_success nvs aton a r proto p w t e =
    let kept =
      failed_add_keeps nvs proto (a.ext_port % 2 ^ 16) (aton a.int_ip) (a.int_port % 2 ^ 16) r e in
    rw (p, w, t) (refl, kept.0, kept.1)
