-- ===== src/Config/Store.antt =====
-- The settings in NVS: the reads and the set commands of components/cmd_router/cmd_router.c.
use esp32_wifi_ap_cp.Base.{
  ℕ, ◌+◌, ◌%◌, Bool, false, not, Option, none, some, List, [], ◌∷◌, if◌then◌else◌, ◌==◌, length,
  map,
}
use esp32_wifi_ap_cp.Base.Errors.{EspErr, esp_ok, other, is_ok}
use esp32_wifi_ap_cp.Config.Text.{preprocess_string}

-- The keys of the namespace that these files use.
pub data Key : Type 0 where
  mac ssid passwd ent_username ent_identity static_ip subnet_mask gateway_addr : Key
  ap_mac ap_ssid ap_passwd ap_ip : Key

abbrev pub key_number : Key → ℕ
key_number mac = 0
key_number ssid = 1
key_number passwd = 2
key_number ent_username = 3
key_number ent_identity = 4
key_number static_ip = 5
key_number subnet_mask = 6
key_number gateway_addr = 7
key_number ap_mac = 8
key_number ap_ssid = 9
key_number ap_passwd = 10
key_number ap_ip = 11

abbrev pub same_key : Key → Key → Bool
same_key a b = key_number a == key_number b

abbrev pub Values : Type 0
Values = Key → Option (List ℕ)

-- What NVS answers. `flushed` tells which values that were set and not committed the flash has taken all
-- the same: NVS promises them only after a commit.
pub record Nvs : Type 0 where
  pub opens : EspErr
  pub get : Key → EspErr
  pub set : Key → EspErr
  pub commit : EspErr
  pub flushed : Key → Bool

-- The values as reads see them, those committed, and the number of handles that were not closed.
pub record Store : Type 0 where
  pub current : Values
  pub committed : Values
  pub handles : ℕ

abbrev pub update : Key → List ℕ → Values → Values
update k v values = λ j. if same_key k j then some v else values j

-- What is there after a restart.
abbrev pub reboot : Nvs → Store → Store
reboot nvs s =
    let kept = λ (k : Key). if nvs.flushed k then s.current k else s.committed k in
    record { current = kept; committed = kept; handles = 0 }

abbrev pub nvs_not_found : EspErr
nvs_not_found = other 0x1102

abbrev pub nvs_invalid_length : EspErr
nvs_invalid_length = other 0x110c

-- nvs_get_str and nvs_get_blob of a key.
abbrev pub lookup : Nvs → Key → Store → EspErr
lookup nvs k s = elim (s.current k) [ none ↦ nvs_not_found | some v ↦ nvs.get k ]

abbrev pub leaked : Store → Store
leaked s = record s { handles = s.handles + 1 }

-- The parameter stays NULL where nothing is read; a key that is not there leaves the handle open.
unfoldable pub get_config_param_str : Nvs → Key → Store → EspErr × Option (List ℕ) × Store
get_config_param_str nvs k s =
    if not (is_ok nvs.opens)
    then (nvs.opens, none, s)
    else if not (is_ok (lookup nvs k s))
    then (lookup nvs k s, none, leaked s)
    else (esp_ok, s.current k, s)

abbrev pub has_length : ℕ → Option (List ℕ) → Bool
has_length n none = false
has_length n (some v) = length v == n

unfoldable pub get_config_param_blob : Nvs → Key → ℕ → Store → EspErr × Option (List ℕ) × Store
get_config_param_blob nvs k blob_len s =
    if not (is_ok nvs.opens)
    then (nvs.opens, none, s)
    else if not (is_ok (lookup nvs k s))
    then (lookup nvs k s, none, leaked s)
    else if not (has_length blob_len (s.current k))
    then (nvs_invalid_length, none, leaked s)
    else (esp_ok, s.current k, s)

abbrev pub put : Nvs → Key → List ℕ → Store → EspErr × Store
put nvs k v s =
    if is_ok (nvs.set k)
    then (esp_ok, record s { current = update k v s.current })
    else (nvs.set k, s)

abbrev pub commit_store : Nvs → Store → EspErr × Store
commit_store nvs s =
    if is_ok nvs.commit then (esp_ok, record s { committed = s.current }) else (nvs.commit, s)

-- nvs_set_str, one after the other while they succeed.
unfoldable pub put_all : Nvs → List (Key × List ℕ) → Store → EspErr × Store
put_all nvs [] s = (esp_ok, s)
put_all nvs ((k, v) ∷ kvs) s =
    let (err, s1) = put nvs k v s in
    let rest = put_all nvs kvs s1 in if is_ok err then rest else (err, s1)

-- nvs_open, the values in turn, nvs_commit, nvs_close.
unfoldable pub set_and_commit : Nvs → List (Key × List ℕ) → Store → EspErr × Store
set_and_commit nvs kvs s =
    let (err, s1) = put_all nvs kvs s in
    if not (is_ok nvs.opens)
    then (nvs.opens, s)
    else if is_ok err
    then commit_store nvs s1
    else (err, s1)

abbrev pub or_empty : Option (List ℕ) → List ℕ
or_empty none = []
or_empty (some v) = v

-- The arguments that arg_parse accepted: the two names of the enterprise log-in are optional.
unfoldable pub set_sta :
    Nvs → List ℕ → List ℕ → Option (List ℕ) → Option (List ℕ) → Store → EspErr × Store
set_sta nvs name password username identity s =
    set_and_commit nvs
      ((ssid, preprocess_string name)
        ∷ (passwd, preprocess_string password)
        ∷ (ent_username, or_empty username)
        ∷ (ent_identity, or_empty identity)
        ∷ [])
      s

unfoldable pub set_sta_static : Nvs → List ℕ → List ℕ → List ℕ → Store → EspErr × Store
set_sta_static nvs ip subnet gateway s =
    set_and_commit nvs
      ((static_ip, preprocess_string ip)
        ∷ (subnet_mask, preprocess_string subnet)
        ∷ (gateway_addr, preprocess_string gateway)
        ∷ [])
      s

-- An octet is an int, cut to a byte; it is given as its value modulo 2 ^ 32.
unfoldable pub set_mac : Nvs → Key → List ℕ → Store → EspErr × Store
set_mac nvs k octets s = set_and_commit nvs ((k, map (λ o. o % 256) octets) ∷ []) s

unfoldable pub set_sta_mac : Nvs → List ℕ → Store → EspErr × Store
set_sta_mac nvs octets s = set_mac nvs mac octets s

unfoldable pub set_ap_mac : Nvs → List ℕ → Store → EspErr × Store
set_ap_mac nvs octets s = set_mac nvs ap_mac octets s

unfoldable pub set_ap : Nvs → List ℕ → List ℕ → Store → EspErr × Store
set_ap nvs name password s =
    set_and_commit nvs
      ((ap_ssid, preprocess_string name) ∷ (ap_passwd, preprocess_string password) ∷ []) s

-- This one does not commit.
unfoldable pub set_ap_ip : Nvs → List ℕ → Store → EspErr × Store
set_ap_ip nvs ip s =
    if not (is_ok nvs.opens) then (nvs.opens, s) else put nvs ap_ip (preprocess_string ip) s
