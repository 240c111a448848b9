-- ===== src/Acl/Admission.antt =====
-- The access list of main/client_acl.c seen as the set of addresses it admits.
use esp32_wifi_ap_cp.Base.{
  ℕ, ◌≡◌, refl, ◌≢◌, Bool, true, false, not, ◌&&◌, ◌||◌, Option, none, some, List, [], ◌∷◌, arith,
  if◌then◌else◌, ◌==◌, update_first, update_all, exists_slot,
}
use esp32_wifi_ap_cp.Acl.{
  AclEntry, blank, used_with_mac, used_with_ip, is_free, put_mac, rebind, occupy, client_acl_admit,
  client_acl_revoke_by_ip, client_acl_revoke_by_mac, client_acl_is_admitted,
}

exists-revoke_ip :
    (i j : ℕ) (acl : List AclEntry)
    → exists_slot (used_with_ip j) (update_all (used_with_ip i) (λ _. blank) acl)
      ≡ (if i == j then false else exists_slot (used_with_ip j) acl)
exists-revoke_ip i j [] = ground arith
exists-revoke_ip i j (e ∷ acl) = ground (arith, exists-revoke_ip i j acl)

-- Revoking an address removes it from the admitted set, and changes the answer for no other.
pub is_admitted-revoke_by_ip :
    (i j : ℕ) (acl : List AclEntry)
    → client_acl_is_admitted j (client_acl_revoke_by_ip i acl)
      ≡ (if i == j then false else client_acl_is_admitted j acl)
unfolding client_acl_is_admitted client_acl_revoke_by_ip
is_admitted-revoke_by_ip i j acl = ground (arith, exists-revoke_ip i j acl)

abbrev pub survives : ℕ → ℕ → AclEntry → Bool
survives mac j e = used_with_ip j e && not (used_with_mac mac e)

exists-revoke_mac :
    (mac j : ℕ) (acl : List AclEntry)
    → exists_slot (used_with_ip j) (update_all (used_with_mac mac) (λ _. blank) acl)
      ≡ exists_slot (survives mac j) acl
exists-revoke_mac mac j [] = refl
exists-revoke_mac mac j (e ∷ acl) = ground (arith, exists-revoke_mac mac j acl)

no_mac-revoke_mac :
    (mac : ℕ) (acl : List AclEntry)
    → exists_slot (used_with_mac mac) (update_all (used_with_mac mac) (λ _. blank) acl) ≡ false
no_mac-revoke_mac mac [] = refl
no_mac-revoke_mac mac (e ∷ acl) = ground (arith, no_mac-revoke_mac mac acl)

-- Revoking a MAC leaves no entry in use under it, and a nonzero address is admitted afterwards
-- exactly when some entry in use for it was not under that MAC.
pub is_admitted-revoke_by_mac :
    (mac j : ℕ) (acl : List AclEntry)
    → let after = client_acl_revoke_by_mac (some mac) acl in
      (exists_slot (used_with_mac mac) after ≡ false)
      × (client_acl_is_admitted j after
          ≡ (if j == 0 then false else exists_slot (survives mac j) acl))
unfolding client_acl_is_admitted client_acl_revoke_by_mac
is_admitted-revoke_by_mac mac j acl =
    (no_mac-revoke_mac mac acl, ground (arith, exists-revoke_mac mac j acl))

pub is_admitted_zero : (acl : List AclEntry) → client_acl_is_admitted 0 acl ≡ false
unfolding client_acl_is_admitted
is_admitted_zero acl = refl

exists-survives :
    (mac j : ℕ) (acl : List AclEntry)
    → exists_slot (survives mac j) acl ≡ true
    → exists_slot (used_with_ip j) acl ≡ true
exists-survives mac j [] h = h
exists-survives mac j (e ∷ acl) h = ground (arith, exists-survives mac j acl)

pub revoke_mac-shrinks :
    (mac j : ℕ) (acl : List AclEntry)
    → client_acl_is_admitted j (client_acl_revoke_by_mac (some mac) acl) ≡ true
    → client_acl_is_admitted j acl ≡ true
unfolding client_acl_is_admitted client_acl_revoke_by_mac
revoke_mac-shrinks mac j acl h =
    ground (arith, exists-revoke_mac mac j acl, exists-survives mac j acl)

-- What the three loops of client_acl_admit do to the test for one address.

exists-put_mac :
    (ip j : ℕ) (mac : Option ℕ) (acl : List AclEntry)
    → exists_slot (used_with_ip j) (update_first (used_with_ip ip) (put_mac mac) acl)
      ≡ exists_slot (used_with_ip j) acl
exists-put_mac ip j mac [] = refl
exists-put_mac ip j none (e ∷ acl) = ground (arith, exists-put_mac ip j none acl)
exists-put_mac ip j (some mac) (e ∷ acl) = ground (arith, exists-put_mac ip j (some mac) acl)

exists-occupy :
    (ip j : ℕ) (mac : Option ℕ) (acl : List AclEntry)
    → exists_slot (used_with_ip j) (update_first is_free (occupy ip mac) acl)
      ≡ ((ip == j) && exists_slot is_free acl || exists_slot (used_with_ip j) acl)
exists-occupy ip j mac [] = ground arith
exists-occupy ip j none (e ∷ acl) = ground (arith, exists-occupy ip j none acl)
exists-occupy ip j (some mac) (e ∷ acl) = ground (arith, exists-occupy ip j (some mac) acl)

exists-rebind_self :
    (mac ip : ℕ) (acl : List AclEntry)
    → exists_slot (used_with_mac mac) acl ≡ true
    → exists_slot (used_with_ip ip) (update_first (used_with_mac mac) (rebind ip) acl) ≡ true
exists-rebind_self mac ip [] h = ground arith
exists-rebind_self mac ip (e ∷ acl) h = ground (arith, exists-rebind_self mac ip acl)

exists-rebind_ne :
    (mac ip j : ℕ) (acl : List AclEntry)
    → ip ≢ j
    → exists_slot (used_with_ip j) (update_first (used_with_mac mac) (rebind ip) acl) ≡ true
    → exists_slot (used_with_ip j) acl ≡ true
exists-rebind_ne mac ip j [] n h = ground arith
exists-rebind_ne mac ip j (e ∷ acl) n h = ground (arith, exists-rebind_ne mac ip j acl n)

abbrev pub knows_mac : Option ℕ → List AclEntry → Bool
knows_mac none acl = false
knows_mac (some mac) acl = exists_slot (used_with_mac mac) acl

-- Admitting an address takes effect exactly when it is not 0 and the table knows the client's MAC,
-- knows the address, or has a free entry.
pub is_admitted-admit :
    (ip : ℕ) (mac : Option ℕ) (acl : List AclEntry)
    → client_acl_is_admitted ip (client_acl_admit ip mac acl) ≡ (
        not (ip == 0)
        && (knows_mac mac acl || exists_slot (used_with_ip ip) acl || exists_slot is_free acl))
unfolding client_acl_is_admitted client_acl_admit
is_admitted-admit ip none acl =
    ground (arith, exists-put_mac ip ip none acl, exists-occupy ip ip none acl)
is_admitted-admit ip (some mac) acl = ground (
  arith,
  exists-put_mac ip ip (some mac) acl,
  exists-occupy ip ip (some mac) acl,
  exists-rebind_self mac ip acl,
)

-- Admitting one address never admits another.
pub admit_admits_no_other :
    (ip j : ℕ) (mac : Option ℕ) (acl : List AclEntry)
    → ip ≢ j
    → client_acl_is_admitted j (client_acl_admit ip mac acl) ≡ true
    → client_acl_is_admitted j acl ≡ true
unfolding client_acl_is_admitted client_acl_admit
admit_admits_no_other ip j none acl n h =
    ground (arith, exists-put_mac ip j none acl, exists-occupy ip j none acl)
admit_admits_no_other ip j (some mac) acl n h = ground (
  arith,
  exists-put_mac ip j (some mac) acl,
  exists-occupy ip j (some mac) acl,
  exists-rebind_ne mac ip j acl n,
)

update_first_absent :
    (p : AclEntry → Bool) (f : AclEntry → AclEntry) (acl : List AclEntry)
    → exists_slot p acl ≡ false
    → update_first p f acl ≡ acl
update_first_absent p f [] h = refl
update_first_absent p f (e ∷ acl) h = ground (arith, update_first_absent p f acl)

-- With every entry in use, an address and a MAC that the table does not know are dropped in
-- silence: the table stays as it was.
pub admit_full :
    (ip : ℕ) (mac : Option ℕ) (acl : List AclEntry)
    → knows_mac mac acl ≡ false
    → exists_slot (used_with_ip ip) acl ≡ false
    → exists_slot is_free acl ≡ false
    → client_acl_admit ip mac acl ≡ acl
unfolding client_acl_admit
admit_full ip none acl k u f = ground (arith, update_first_absent is_free (occupy ip none) acl)
admit_full ip (some mac) acl k u f =
    ground (arith, update_first_absent is_free (occupy ip (some mac)) acl)

-- Revoking leaves a free entry free.
pub revoke_all-free :
    (p : AclEntry → Bool) (acl : List AclEntry)
    → exists_slot is_free acl ≡ true
    → exists_slot is_free (update_all p (λ _. blank) acl) ≡ true
revoke_all-free p [] h = h
revoke_all-free p (e ∷ acl) h = ground (arith, revoke_all-free p acl)
