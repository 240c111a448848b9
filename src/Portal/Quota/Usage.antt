-- ===== src/Portal/Quota/Usage.antt =====
-- What the quota table of main/http_server.c promises: for each MAC and day a number of seconds used.
use esp32_wifi_ap_cp.Base.{
  ℕ, zero, suc, ◌≤◌, ◌<◌, ◌≡◌, refl, ◌≢◌, ◌⊎◌, inl, inr, true, false, none, some, List, [], ◌∷◌,
  arith, if◌then◌else◌, ◌==◌, length, find_slot, get_or, set, All,
}
use esp32_wifi_ap_cp.Portal.Quota.{
  Quota, QuotaRecord, no_record, max_clients, daily_quota_sec, valid_with_mac,
}

abbrev pub IsRecord : QuotaRecord → Type 0
IsRecord r = (r.used_seconds ≤ daily_quota_sec) × (r.valid ≡ true → r.mac ≢ 0)

pub record QuotaInv (q : Quota) : Type 0 where
  pub size : length q.records ≡ max_clients
  pub each : All IsRecord q.records

pub no_record-IsRecord : IsRecord no_record
no_record-IsRecord = (omega arith, λ h. ground arith)

-- The seconds that a MAC has used on a day.
unfoldable pub used_on : ℕ → ℕ → List QuotaRecord → ℕ
used_on mac day [] = 0
used_on mac day (r ∷ rs) =
    let rest = used_on mac day rs in
    if valid_with_mac mac r then (if r.day_id == day then r.used_seconds else 0) else rest

-- The slot that find_or_alloc_quota_record settles on.
abbrev pub IsSlotFor : ℕ → ℕ → List QuotaRecord → Type 0
IsSlotFor mac i rs =
    (find_slot (valid_with_mac mac) rs ≡ some i)
    ⊎ ((find_slot (valid_with_mac mac) rs ≡ none) × (i < length rs))

abbrev pub used_in : ℕ → QuotaRecord → ℕ
used_in day r = if r.day_id == day then r.used_seconds else 0

pub used_on-found :
    (mac day i : ℕ) (rs : List QuotaRecord)
    → find_slot (valid_with_mac mac) rs ≡ some i
    → used_on mac day rs ≡ used_in day (get_or rs i no_record)
unfolding used_on
used_on-found mac day i [] h = ground arith
used_on-found mac day zero (r ∷ rs) h = ground arith
used_on-found mac day (suc i) (r ∷ rs) h = ground (arith, used_on-found mac day i rs)

pub used_on-absent :
    (mac day : ℕ) (rs : List QuotaRecord)
    → find_slot (valid_with_mac mac) rs ≡ none
    → used_on mac day rs ≡ 0
unfolding used_on
used_on-absent mac day [] h = refl
used_on-absent mac day (r ∷ rs) h = ground (arith, used_on-absent mac day rs)

used_on-set_found :
    (mac day i : ℕ) (v : QuotaRecord) (rs : List QuotaRecord)
    → valid_with_mac mac v ≡ true
    → find_slot (valid_with_mac mac) rs ≡ some i
    → used_on mac day (set rs i v) ≡ used_in day v
unfolding used_on
used_on-set_found mac day i v [] e h = ground arith
used_on-set_found mac day zero v (r ∷ rs) e h = ground arith
used_on-set_found mac day (suc i) v (r ∷ rs) e h =
    ground (arith, used_on-set_found mac day i v rs e)

used_on-set_absent :
    (mac day i : ℕ) (v : QuotaRecord) (rs : List QuotaRecord)
    → valid_with_mac mac v ≡ true
    → find_slot (valid_with_mac mac) rs ≡ none
    → i < length rs
    → used_on mac day (set rs i v) ≡ used_in day v
unfolding used_on
used_on-set_absent mac day i v [] e h l = elim l [ ]
used_on-set_absent mac day zero v (r ∷ rs) e h l = ground arith
used_on-set_absent mac day (suc i) v (r ∷ rs) e h l =
    ground (arith, used_on-set_absent mac day i v rs e)

pub used_on-set :
    (mac day i : ℕ) (v : QuotaRecord) (rs : List QuotaRecord)
    → valid_with_mac mac v ≡ true
    → IsSlotFor mac i rs
    → used_on mac day (set rs i v) ≡ used_in day v
used_on-set mac day i v rs e (inl h) = used_on-set_found mac day i v rs e h
used_on-set mac day i v rs e (inr h) = used_on-set_absent mac day i v rs e h.0 h.1

-- A write of a record for one MAC over a record that is not another's leaves that other's use.
pub used_on-set_other :
    (mac day i : ℕ) (v : QuotaRecord) (rs : List QuotaRecord)
    → valid_with_mac mac v ≡ false
    → valid_with_mac mac (get_or rs i no_record) ≡ false
    → used_on mac day (set rs i v) ≡ used_on mac day rs
unfolding used_on
used_on-set_other mac day i v [] e h = refl
used_on-set_other mac day zero v (r ∷ rs) e h = ground arith
used_on-set_other mac day (suc i) v (r ∷ rs) e h =
    ground (arith, used_on-set_other mac day i v rs e h)

pub used_on-le :
    (mac day : ℕ) (rs : List QuotaRecord) → All IsRecord rs → used_on mac day rs ≤ daily_quota_sec
unfolding used_on
used_on-le mac day [] h = omega arith
used_on-le mac day (r ∷ rs) h = ground (arith, used_on-le mac day rs h.1)
