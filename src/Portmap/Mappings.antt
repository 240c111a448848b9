-- ===== src/Portmap/Mappings.antt =====
-- What the port mappings of main/esp32_nat_router.c survive.
use esp32_wifi_ap_cp.Base.{
  ℕ, ◌≡◌, refl, Bool, true, false, ◌&&◌, List, [], ◌∷◌, arith, if◌then◌else◌, ◌==◌, length,
  update_first, exists_slot, length-update_first,
}
use esp32_wifi_ap_cp.Portmap.{
  PortmapEntry, esp_ok, nvs_failed, Nvs, Router, is_unused, fill, is_mapping, invalidate, load_blob,
  get_portmap_tab, add_portmap, del_portmap,
}

-- The mappings in force, in the table's order.
abbrev pub mappings : List PortmapEntry → List PortmapEntry
mappings [] = []
mappings (e ∷ es) = if e.valid then e ∷ mappings es else mappings es

abbrev pub maps_to : ℕ → ℕ → ℕ → ℕ → PortmapEntry → Bool
maps_to proto mport daddr dport e =
    e.valid && (e.proto == proto) && (e.mport == mport) && (e.daddr == daddr) && (e.dport == dport)

fill-maps :
    (proto mport daddr dport : ℕ) (t : List PortmapEntry)
    → exists_slot is_unused t ≡ true
    → exists_slot
        (maps_to proto mport daddr dport)
        (update_first is_unused (fill proto mport daddr dport) t)
      ≡ true
fill-maps proto mport daddr dport [] h = h
fill-maps proto mport daddr dport (e ∷ t) h = ground (arith, h, fill-maps proto mport daddr dport t)

-- A mapping that was added with NVS at work is in the table that the next boot loads, whatever that boot
-- had in its table before.
pub added_mapping_survives_reboot :
    (nvs : Nvs) (proto mport daddr dport : ℕ) (r : Router) (boot : List PortmapEntry)
    → exists_slot is_unused r.portmap_tab ≡ true
    → nvs.open_ok ≡ true
    → nvs.set_blob_ok ≡ true
    → nvs.commit_ok ≡ true
    → nvs.get_blob_ok ≡ true
    → length boot ≡ length r.portmap_tab
    → let (err, r1) = add_portmap nvs proto mport daddr dport r in
      let (err', r2) = get_portmap_tab nvs (record r1 { portmap_tab = boot }) in
      (err ≡ esp_ok)
      × (err' ≡ esp_ok)
      × (r2.portmap_tab ≡ r1.portmap_tab)
      × (exists_slot (maps_to proto mport daddr dport) r2.portmap_tab ≡ true)
unfolding add_portmap get_portmap_tab load_blob
added_mapping_survives_reboot nvs proto mport daddr dport r boot f o s c g l =
    let filled = fill-maps proto mport daddr dport r.portmap_tab f in
    let same = length-update_first is_unused (fill proto mport daddr dport) r.portmap_tab in
    ground (arith, f, o, s, c, g, l, filled, same)

fill-invalidate :
    (proto mport daddr dport : ℕ) (t : List PortmapEntry)
    → exists_slot is_unused t ≡ true
    → exists_slot (is_mapping proto mport) t ≡ false
    → let added = update_first is_unused (fill proto mport daddr dport) t in
      (exists_slot (is_mapping proto mport) added ≡ true)
      × (mappings (update_first (is_mapping proto mport) invalidate added) ≡ mappings t)
fill-invalidate proto mport daddr dport [] f n = ground (arith, f)
fill-invalidate proto mport daddr dport (e ∷ t) f n =
    ground (arith, f, n, fill-invalidate proto mport daddr dport t)

-- Deleting a mapping that was just added, where the table had none for its port and protocol, gives back the
-- mappings in force before, with NVS at work or not.
pub delete_undoes_add :
    (nvs nvs' : Nvs) (proto mport daddr dport : ℕ) (r : Router)
    → exists_slot is_unused r.portmap_tab ≡ true
    → exists_slot (is_mapping proto mport) r.portmap_tab ≡ false
    → let r1 = (add_portmap nvs proto mport daddr dport r).1 in
      mappings (del_portmap nvs' proto mport r1).1.portmap_tab ≡ mappings r.portmap_tab
unfolding add_portmap del_portmap
delete_undoes_add nvs nvs' proto mport daddr dport r f n =
    let undone = fill-invalidate proto mport daddr dport r.portmap_tab f n in
    ground (arith, f, n, undone)

-- Where NVS does not open, adding reports the failure, but the mapping stays in the table, and NAPT is not
-- told of it.
pub failed_add_stays_in_table :
    (nvs : Nvs) (proto mport daddr dport : ℕ) (r : Router)
    → exists_slot is_unused r.portmap_tab ≡ true
    → nvs.open_ok ≡ false
    → let (err, r1) = add_portmap nvs proto mport daddr dport r in
      (err ≡ nvs_failed)
      × (r1.calls ≡ r.calls)
      × (exists_slot (maps_to proto mport daddr dport) r1.portmap_tab ≡ true)
unfolding add_portmap
failed_add_stays_in_table nvs proto mport daddr dport r f o =
    rw (f, o) (refl, refl, fill-maps proto mport daddr dport r.portmap_tab f)
