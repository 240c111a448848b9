-- ===== src/Acl/Macs.antt =====
-- The MACs in the table of main/client_acl.c: each has one entry at most.
use esp32_wifi_ap_cp.Base.{
  ℕ, ◌≡◌, refl, ◌≢◌, Bool, true, false, ◌&&◌, none, some, List, [], ◌∷◌, arith, ◌==◌, update_first,
  update_all, exists_slot, All,
}
use esp32_wifi_ap_cp.Acl.{
  AclEntry, blank, used_with_mac, used_with_ip, is_free, put_mac, rebind, occupy,
}

-- A free entry is blank, and an entry in use has an address.
abbrev pub IsClean : AclEntry → Type 0
IsClean e = (e.used ≡ false → e ≡ blank) × (e.used ≡ true → e.ip ≢ 0)

-- No MAC has two entries.
abbrev pub DistinctMacs : List AclEntry → Type 0
DistinctMacs [] = Unit {0}
DistinctMacs (e ∷ acl) =
    ((e.used && e.has_mac) ≡ true → exists_slot (used_with_mac e.mac) acl ≡ false)
    × DistinctMacs acl

-- What each loop's change does to the test for one MAC.

pub exists_mac-rebind :
    (mac ip m : ℕ) (acl : List AclEntry)
    → exists_slot (used_with_mac m) (update_first (used_with_mac mac) (rebind ip) acl)
      ≡ exists_slot (used_with_mac m) acl
exists_mac-rebind mac ip m [] = refl
exists_mac-rebind mac ip m (e ∷ acl) = ground (arith, exists_mac-rebind mac ip m acl)

pub exists_mac-put :
    (ip mac m : ℕ) (acl : List AclEntry)
    → (mac == m) ≡ false
    → exists_slot (used_with_mac m) acl ≡ false
    → exists_slot (used_with_mac m) (update_first (used_with_ip ip) (put_mac (some mac)) acl)
      ≡ false
exists_mac-put ip mac m [] n h = refl
exists_mac-put ip mac m (e ∷ acl) n h = ground (arith, exists_mac-put ip mac m acl n)

pub exists_mac-occupy :
    (ip mac m : ℕ) (acl : List AclEntry)
    → (mac == m) ≡ false
    → exists_slot (used_with_mac m) acl ≡ false
    → exists_slot (used_with_mac m) (update_first is_free (occupy ip (some mac)) acl) ≡ false
exists_mac-occupy ip mac m [] n h = refl
exists_mac-occupy ip mac m (e ∷ acl) n h = ground (arith, exists_mac-occupy ip mac m acl n)

pub exists_mac-occupy-none :
    (ip m : ℕ) (acl : List AclEntry)
    → All IsClean acl
    → exists_slot (used_with_mac m) acl ≡ false
    → exists_slot (used_with_mac m) (update_first is_free (occupy ip none) acl) ≡ false
exists_mac-occupy-none ip m [] c h = refl
exists_mac-occupy-none ip m (e ∷ acl) c h =
    ground (arith, c.0.0, exists_mac-occupy-none ip m acl c.1)

pub exists_mac-revoke :
    (p : AclEntry → Bool) (m : ℕ) (acl : List AclEntry)
    → exists_slot (used_with_mac m) acl ≡ false
    → exists_slot (used_with_mac m) (update_all p (λ _. blank) acl) ≡ false
exists_mac-revoke p m [] h = refl
exists_mac-revoke p m (e ∷ acl) h = ground (arith, exists_mac-revoke p m acl)

pub distinct-rebind :
    (mac ip : ℕ) (acl : List AclEntry)
    → DistinctMacs acl
    → DistinctMacs (update_first (used_with_mac mac) (rebind ip) acl)
distinct-rebind mac ip [] d = tt
distinct-rebind mac ip (e ∷ acl) d =
    ground (arith, exists_mac-rebind mac ip e.mac acl, distinct-rebind mac ip acl d.1)

pub distinct-put_none :
    (ip : ℕ) (acl : List AclEntry) → update_first (used_with_ip ip) (put_mac none) acl ≡ acl
distinct-put_none ip [] = refl
distinct-put_none ip (e ∷ acl) = ground (arith, distinct-put_none ip acl)

pub distinct-put :
    (ip mac : ℕ) (acl : List AclEntry)
    → exists_slot (used_with_mac mac) acl ≡ false
    → DistinctMacs acl
    → DistinctMacs (update_first (used_with_ip ip) (put_mac (some mac)) acl)
distinct-put ip mac [] k d = tt
distinct-put ip mac (e ∷ acl) k d =
    ground (arith, exists_mac-put ip mac e.mac acl, distinct-put ip mac acl)

pub distinct-occupy :
    (ip mac : ℕ) (acl : List AclEntry)
    → exists_slot (used_with_mac mac) acl ≡ false
    → DistinctMacs acl
    → DistinctMacs (update_first is_free (occupy ip (some mac)) acl)
distinct-occupy ip mac [] k d = tt
distinct-occupy ip mac (e ∷ acl) k d =
    ground (arith, exists_mac-occupy ip mac e.mac acl, distinct-occupy ip mac acl)

pub distinct-occupy-none :
    (ip : ℕ) (acl : List AclEntry)
    → All IsClean acl
    → DistinctMacs acl
    → DistinctMacs (update_first is_free (occupy ip none) acl)
distinct-occupy-none ip [] c d = tt
distinct-occupy-none ip (e ∷ acl) c d =
    ground (arith, c.0.0, exists_mac-occupy-none ip e.mac acl c.1, distinct-occupy-none ip acl c.1)

pub distinct-revoke :
    (p : AclEntry → Bool) (acl : List AclEntry)
    → DistinctMacs acl
    → DistinctMacs (update_all p (λ _. blank) acl)
distinct-revoke p [] d = tt
distinct-revoke p (e ∷ acl) d = ground (arith, exists_mac-revoke p e.mac acl, distinct-revoke p acl)
