-- ===== src/Acl/Invariant.antt =====
-- The table invariant of main/client_acl.c.
use esp32_wifi_ap_cp.Base.{
  ℕ, ◌≡◌, refl, ◌≢◌, ◌∙◌, Bool, true, false, Option, none, some, List, [], ◌∷◌, arith, ◌==◌, inl,
  inr, Bool-cases, length, update_first, update_all, exists_slot, All, All-update_all,
  All-update_first, length-update_first, length-update_all,
}
use esp32_wifi_ap_cp.Acl.Admission.{knows_mac}
use esp32_wifi_ap_cp.Acl.{
  AclEntry, blank, used_with_mac, used_with_ip, is_free, put_mac, rebind, occupy, admit_ip,
  admit_known, client_acl_init, client_acl_clear, client_acl_admit, client_acl_revoke_by_ip,
  client_acl_revoke_by_mac, acl_max_clients, AclCall, inits, admits, revokes_ip, revokes_mac,
  apply_call, run,
}
use esp32_wifi_ap_cp.Acl.Macs.{
  IsClean, DistinctMacs, distinct-rebind, distinct-put_none, distinct-put, distinct-occupy,
  distinct-occupy-none, distinct-revoke,
}

pub record AclInv (acl : List AclEntry) : Type 0 where
  pub size : length acl ≡ acl_max_clients
  pub clean : All IsClean acl
  pub distinct : DistinctMacs acl

blank-IsClean : IsClean blank
blank-IsClean = ((λ _. refl), (λ h. ground arith))

pub client_acl_init-AclInv : AclInv client_acl_init
unfolding client_acl_init
client_acl_init-AclInv = ground arith

put_mac-IsClean :
    (ip : ℕ) (mac : Option ℕ) (e : AclEntry)
    → used_with_ip ip e ≡ true
    → IsClean e
    → IsClean (put_mac mac e)
put_mac-IsClean ip none e u c = c
put_mac-IsClean ip (some mac) e u c = ((λ h. ground arith), c.1)

occupy-IsClean : (ip : ℕ) (mac : Option ℕ) (e : AclEntry) → ip ≢ 0 → IsClean (occupy ip mac e)
occupy-IsClean ip none e n = ((λ h. ground arith), (λ _. n))
occupy-IsClean ip (some mac) e n = ((λ h. ground arith), (λ _. n))

rebind-IsClean :
    (mac ip : ℕ) (e : AclEntry) → ip ≢ 0 → used_with_mac mac e ≡ true → IsClean (rebind ip e)
rebind-IsClean mac ip e n u = ((λ h. ground arith), (λ _. n))

put_mac-AclInv :
    (ip : ℕ) (mac : Option ℕ) (acl : List AclEntry)
    → knows_mac mac acl ≡ false
    → AclInv acl
    → AclInv (update_first (used_with_ip ip) (put_mac mac) acl)
put_mac-AclInv ip none acl k v = rw (distinct-put_none ip acl) v
put_mac-AclInv ip (some mac) acl k v = record {
  size = length-update_first _ _ acl ∙ v.size;
  clean = All-update_first IsClean _ _ acl (put_mac-IsClean ip (some mac)) v.clean;
  distinct = distinct-put ip mac acl k v.distinct;
}

occupy-AclInv :
    (ip : ℕ) (mac : Option ℕ) (acl : List AclEntry)
    → ip ≢ 0
    → knows_mac mac acl ≡ false
    → AclInv acl
    → AclInv (update_first is_free (occupy ip mac) acl)
occupy-AclInv ip mac acl n k v = record {
  size = length-update_first _ _ acl ∙ v.size;
  clean = All-update_first IsClean _ _ acl (λ e _ _. occupy-IsClean ip mac e n) v.clean;
  distinct = occupied mac k;
}
  where
    occupied :
        (m : Option ℕ)
        → knows_mac m acl ≡ false
        → DistinctMacs (update_first is_free (occupy ip m) acl)
    occupied none _ = distinct-occupy-none ip acl v.clean v.distinct
    occupied (some m) k' = distinct-occupy ip m acl k' v.distinct

rebind-AclInv :
    (mac ip : ℕ) (acl : List AclEntry)
    → ip ≢ 0
    → AclInv acl
    → AclInv (update_first (used_with_mac mac) (rebind ip) acl)
rebind-AclInv mac ip acl n v = record {
  size = length-update_first _ _ acl ∙ v.size;
  clean = All-update_first IsClean _ _ acl (λ e u _. rebind-IsClean mac ip e n u) v.clean;
  distinct = distinct-rebind mac ip acl v.distinct;
}

revoke-AclInv :
    (p : AclEntry → Bool) (acl : List AclEntry)
    → AclInv acl
    → AclInv (update_all p (λ _. blank) acl)
revoke-AclInv p acl v = record {
  size = length-update_all p (λ _. blank) acl ∙ v.size;
  clean = All-update_all IsClean p (λ _. blank) acl (λ _ _. blank-IsClean) v.clean;
  distinct = distinct-revoke p acl v.distinct;
}

admit_ip-AclInv :
    (ip : ℕ) (mac : Option ℕ) (acl : List AclEntry)
    → ip ≢ 0
    → knows_mac mac acl ≡ false
    → AclInv acl
    → AclInv (admit_ip ip mac acl)
unfolding admit_ip
admit_ip-AclInv ip mac acl n k v = elim (Bool-cases (exists_slot (used_with_ip ip) acl)) [
  | inl e ↦ rw e (put_mac-AclInv ip mac acl k v)
  | inr e ↦ rw e (occupy-AclInv ip mac acl n k v)
]

admit_known-AclInv :
    (ip : ℕ) (mac : Option ℕ) (acl : List AclEntry)
    → ip ≢ 0
    → AclInv acl
    → AclInv (admit_known ip mac acl)
unfolding admit_known
admit_known-AclInv ip none acl n v = admit_ip-AclInv ip none acl n refl v
admit_known-AclInv ip (some mac) acl n v = elim (Bool-cases (exists_slot (used_with_mac mac) acl)) [
  | inl e ↦ rw e (rebind-AclInv mac ip acl n v)
  | inr e ↦ rw e (admit_ip-AclInv ip (some mac) acl n e v)
]

-- Admitting a client keeps the table at 20 entries, its free entries blank, the addresses in use
-- nonzero, and each MAC in one entry at most.
pub client_acl_admit-AclInv :
    (ip : ℕ) (mac : Option ℕ) (acl : List AclEntry)
    → AclInv acl
    → AclInv (client_acl_admit ip mac acl)
unfolding client_acl_admit
client_acl_admit-AclInv ip mac acl v = elim (Bool-cases (ip == 0)) [
  | inl e ↦ rw e v
  | inr e ↦ rw e (admit_known-AclInv ip mac acl (λ z. ground arith) v)
]

pub revoke_by_ip-AclInv :
    (ip : ℕ) (acl : List AclEntry) → AclInv acl → AclInv (client_acl_revoke_by_ip ip acl)
unfolding client_acl_revoke_by_ip
revoke_by_ip-AclInv ip acl v = elim (Bool-cases (ip == 0)) [
  | inl e ↦ rw e v
  | inr e ↦ rw e (revoke-AclInv (used_with_ip ip) acl v)
]

pub revoke_by_mac-AclInv :
    (mac : Option ℕ) (acl : List AclEntry) → AclInv acl → AclInv (client_acl_revoke_by_mac mac acl)
unfolding client_acl_revoke_by_mac
revoke_by_mac-AclInv none acl v = v
revoke_by_mac-AclInv (some mac) acl v = revoke-AclInv (used_with_mac mac) acl v

apply_call-AclInv : (c : AclCall) (acl : List AclEntry) → AclInv acl → AclInv (apply_call c acl)
unfolding apply_call client_acl_clear
apply_call-AclInv inits acl v = client_acl_init-AclInv
apply_call-AclInv (admits ip mac) acl v = client_acl_admit-AclInv ip mac acl v
apply_call-AclInv (revokes_ip ip) acl v = revoke_by_ip-AclInv ip acl v
apply_call-AclInv (revokes_mac mac) acl v = revoke_by_mac-AclInv mac acl v

run_from-AclInv : (cs : List AclCall) (acl : List AclEntry) → AclInv acl → AclInv (run cs acl)
unfolding run
run_from-AclInv [] acl v = v
run_from-AclInv (c ∷ cs) acl v = run_from-AclInv cs (apply_call c acl) (apply_call-AclInv c acl v)

-- After initialisation and any sequence of calls the table has 20 entries, its free entries are
-- blank, the addresses in use are nonzero, and each MAC has one entry at most.
pub run-AclInv : (cs : List AclCall) → AclInv (run cs client_acl_init)
run-AclInv cs = run_from-AclInv cs client_acl_init client_acl_init-AclInv
