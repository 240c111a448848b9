-- ===== src/Portmap.antt =====
-- The port mappings of main/esp32_nat_router.c: the table, its copy in NVS, and the calls of lwIP's NAPT.
pub mod Command
pub mod Mappings
use esp32_wifi_ap_cp.Base.{
  ℕ, Bool, true, false, not, ◌&&◌, Option, none, some, List, [], ◌∷◌, ◌++◌, if◌then◌else◌, ◌==◌,
  length, update_first, exists_slot, map,
}

-- portmap_table_entry
pub record PortmapEntry : Type 0 where
  pub daddr : ℕ
  pub mport : ℕ
  pub dport : ℕ
  pub proto : ℕ
  pub valid : Bool

-- ip_portmap_add and ip_portmap_remove
pub data NaptCall : Type 0 where
  adds : ℕ → ℕ → ℕ → ℕ → ℕ → NaptCall
  removes : ℕ → ℕ → NaptCall

-- ESP_OK, ESP_ERR_NO_MEM, ESP_ERR_NVS_INVALID_LENGTH, and an error that NVS returned.
pub data EspErr : Type 0 where
  esp_ok esp_err_no_mem esp_err_nvs_invalid_length nvs_failed : EspErr

-- What NVS answers; true for ESP_OK.
pub record Nvs : Type 0 where
  pub open_ok : Bool
  pub set_blob_ok : Bool
  pub commit_ok : Bool
  pub get_blob_ok : Bool

-- portmap_tab, the blob that NVS has committed, and the calls of NAPT, the last first.
pub record Router : Type 0 where
  pub portmap_tab : List PortmapEntry
  pub stored : Option (List PortmapEntry)
  pub my_ip : ℕ
  pub calls : List NaptCall

abbrev pub zero_entry : PortmapEntry
zero_entry = record { daddr = 0; mport = 0; dport = 0; proto = 0; valid = false }

-- The calls of a loop over the table, the last first.
abbrev pub add_calls : ℕ → List PortmapEntry → List NaptCall → List NaptCall
add_calls my_ip [] calls = calls
add_calls my_ip (e ∷ es) calls =
    add_calls my_ip es
      (if e.valid then adds e.proto my_ip e.mport e.daddr e.dport ∷ calls else calls)

abbrev pub remove_calls : List PortmapEntry → List NaptCall → List NaptCall
remove_calls [] calls = calls
remove_calls (e ∷ es) calls =
    remove_calls es (if e.valid then removes e.proto e.mport ∷ calls else calls)

unfoldable pub apply_portmap_tab : Router → Router
apply_portmap_tab r = record r { calls = add_calls r.my_ip r.portmap_tab r.calls }

unfoldable pub delete_portmap_tab : Router → Router
delete_portmap_tab r = record r { calls = remove_calls r.portmap_tab r.calls }

pub load_blob : Nvs → Option (List PortmapEntry) → Router → EspErr × Router
load_blob nvs none r = (nvs_failed, r)
load_blob nvs (some blob) r =
    if not (length blob == length r.portmap_tab)
    then (esp_err_nvs_invalid_length, r)
    else if nvs.get_blob_ok
    then (esp_ok, record r { portmap_tab = blob })
    else (nvs_failed, record r { portmap_tab = map (λ _. zero_entry) r.portmap_tab })

unfoldable pub get_portmap_tab : Nvs → Router → EspErr × Router
get_portmap_tab nvs r = if nvs.open_ok then load_blob nvs r.stored r else (nvs_failed, r)

abbrev pub is_unused : PortmapEntry → Bool
is_unused e = not e.valid

abbrev pub fill : ℕ → ℕ → ℕ → ℕ → PortmapEntry → PortmapEntry
fill proto mport daddr dport e = record {
  daddr = daddr;
  mport = mport;
  dport = dport;
  proto = proto;
  valid = true;
}

-- nvs_set_blob and nvs_commit of the table.
abbrev pub store_table :
    Nvs → List PortmapEntry → Option (List PortmapEntry) → Option (List PortmapEntry)
store_table nvs table stored = if nvs.set_blob_ok && nvs.commit_ok then some table else stored

unfoldable pub add_portmap : Nvs → ℕ → ℕ → ℕ → ℕ → Router → EspErr × Router
add_portmap nvs proto mport daddr dport r =
    let table = update_first is_unused (fill proto mport daddr dport) r.portmap_tab in
    let r1 = record r { portmap_tab = table } in
    if not (exists_slot is_unused r.portmap_tab)
    then (esp_err_no_mem, r)
    else if not nvs.open_ok
    then (nvs_failed, r1)
    else (
      esp_ok,
      record r1 {
        stored = store_table nvs table r.stored;
        calls = adds proto r.my_ip mport daddr dport ∷ r.calls;
      },
    )

abbrev pub is_mapping : ℕ → ℕ → PortmapEntry → Bool
is_mapping proto mport e = e.valid && (e.mport == mport) && (e.proto == proto)

abbrev pub invalidate : PortmapEntry → PortmapEntry
invalidate e = record e { valid = false }

unfoldable pub del_portmap : Nvs → ℕ → ℕ → Router → EspErr × Router
del_portmap nvs proto mport r =
    let table = update_first (is_mapping proto mport) invalidate r.portmap_tab in
    let r1 = record r { portmap_tab = table } in
    if not (exists_slot (is_mapping proto mport) r.portmap_tab)
    then (esp_ok, r)
    else if not nvs.open_ok
    then (nvs_failed, r1)
    else (
      esp_ok,
      record r1 { stored = store_table nvs table r.stored; calls = removes proto mport ∷ r.calls },
    )
