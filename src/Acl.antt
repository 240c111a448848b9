-- ===== src/Acl.antt =====
-- The client access list, main/client_acl.c: which client addresses the packet hook lets through.
-- The critical sections make every operation atomic, so each is one function on the table. A MAC
-- address, six bytes compared by memcmp, is one number below 2 ^ 48; a null pointer is `none`.
pub mod Admission
pub mod Macs
pub mod Invariant
use esp32_wifi_ap_cp.Base.{
  ℕ, Bool, true, false, ◌&&◌, Option, none, some, List, [], ◌∷◌, if◌then◌else◌, ◌==◌, not,
  replicate, update_first, update_all, exists_slot,
}

abbrev pub acl_max_clients : ℕ
acl_max_clients = 20

pub record AclEntry : Type 0 where
  pub used : Bool
  pub ip : ℕ
  pub mac : ℕ
  pub has_mac : Bool

-- memset(&s_acl[i], 0, sizeof(s_acl[i]))
abbrev pub blank : AclEntry
blank = record { used = false; ip = 0; mac = 0; has_mac = false }

abbrev pub mac_matches : AclEntry → ℕ → Bool
mac_matches e mac = e.has_mac && (e.mac == mac)

abbrev pub used_with_mac : ℕ → AclEntry → Bool
used_with_mac mac e = e.used && mac_matches e mac

abbrev pub used_with_ip : ℕ → AclEntry → Bool
used_with_ip ip e = e.used && (e.ip == ip)

abbrev pub is_free : AclEntry → Bool
is_free e = not e.used

unfoldable pub client_acl_init : List AclEntry
client_acl_init = replicate acl_max_clients blank

unfoldable pub client_acl_clear : List AclEntry
unfolding client_acl_init
client_acl_clear = client_acl_init

-- memcpy of the address and `has_mac`, where the caller has one.
abbrev pub put_mac : Option ℕ → AclEntry → AclEntry
put_mac none e = e
put_mac (some mac) e = record e { mac = mac; has_mac = true }

abbrev pub rebind : ℕ → AclEntry → AclEntry
rebind ip e = record e { ip = ip }

abbrev pub occupy : ℕ → Option ℕ → AclEntry → AclEntry
occupy ip mac e = put_mac mac (record e { used = true; ip = ip })

-- The second and third loop of client_acl_admit.
unfoldable pub admit_ip : ℕ → Option ℕ → List AclEntry → List AclEntry
admit_ip ip mac acl =
    if exists_slot (used_with_ip ip) acl
    then update_first (used_with_ip ip) (put_mac mac) acl
    else update_first is_free (occupy ip mac) acl

unfoldable pub admit_known : ℕ → Option ℕ → List AclEntry → List AclEntry
unfolding admit_ip
admit_known ip none acl = admit_ip ip none acl
admit_known ip (some mac) acl =
    if exists_slot (used_with_mac mac) acl
    then update_first (used_with_mac mac) (rebind ip) acl
    else admit_ip ip (some mac) acl

unfoldable pub client_acl_admit : ℕ → Option ℕ → List AclEntry → List AclEntry
unfolding admit_known
client_acl_admit ip mac acl = if ip == 0 then acl else admit_known ip mac acl

unfoldable pub client_acl_revoke_by_ip : ℕ → List AclEntry → List AclEntry
client_acl_revoke_by_ip ip acl =
    if ip == 0 then acl else update_all (used_with_ip ip) (λ _. blank) acl

unfoldable pub client_acl_revoke_by_mac : Option ℕ → List AclEntry → List AclEntry
client_acl_revoke_by_mac none acl = acl
client_acl_revoke_by_mac (some mac) acl = update_all (used_with_mac mac) (λ _. blank) acl

unfoldable pub client_acl_is_admitted : ℕ → List AclEntry → Bool
client_acl_is_admitted ip acl = if ip == 0 then false else exists_slot (used_with_ip ip) acl

-- The calls of the interface client_acl.h that change the table.
pub data AclCall : Type 0 where
  inits : AclCall
  admits : ℕ → Option ℕ → AclCall
  revokes_ip : ℕ → AclCall
  revokes_mac : Option ℕ → AclCall

unfoldable pub apply_call : AclCall → List AclEntry → List AclEntry
unfolding client_acl_clear
apply_call inits acl = client_acl_clear
apply_call (admits ip mac) acl = client_acl_admit ip mac acl
apply_call (revokes_ip ip) acl = client_acl_revoke_by_ip ip acl
apply_call (revokes_mac mac) acl = client_acl_revoke_by_mac mac acl

unfoldable pub run : List AclCall → List AclEntry → List AclEntry
unfolding apply_call
run [] acl = acl
run (c ∷ cs) acl = run cs (apply_call c acl)
