-- ===== src/Portal/Quota/Remaining.antt =====
-- find_or_alloc_quota_record and get_quota_remaining_for_mac of main/http_server.c against the
-- seconds that the table promises.
use esp32_wifi_ap_cp.Base.{
  ℕ, ◌-◌, ◌≤◌, ◌<◌, ◌≡◌, refl, sym, ◌≢◌, ◌∙◌, inl, inr, Bool, true, Option, none, some, List, arith,
  if◌then◌else◌, ◌==◌, length, find_slot, set, find_slot-lt, find_slot_sound, get_or-set_self,
  set-get_or, length-set, All-set, Option-cases, Bool-cases,
}
use esp32_wifi_ap_cp.Portal.Quota.{
  Env, Quota, QuotaRecord, no_record, daily_quota_sec, valid_with_mac, invalid, record_at,
  roll_over, alloc_record, or_zero, find_or_alloc_nonzero, find_or_alloc_quota_record,
  get_current_day_id, get_quota_remaining_for_mac, remaining_of,
}
use esp32_wifi_ap_cp.Portal.Quota.Usage.{
  QuotaInv, IsRecord, IsSlotFor, used_on, used_on-found, used_on-absent, used_on-le,
}

-- What find_or_alloc_quota_record returns for a nonzero MAC: an index, and the record there.
pub record IsFound (mac day : ℕ) (before after : Quota) (i : ℕ) : Type 0 where
  pub slot : IsSlotFor mac i before.records
  pub result : after.records ≡ set before.records i (record_at after i)
  pub within : i < length after.records
  pub owner : valid_with_mac mac (record_at after i) ≡ true
  pub today : (record_at after i).day_id ≡ day
  pub kept : (record_at after i).used_seconds ≡ used_on mac day before.records

slot-lt : (mac i : ℕ) (rs : List QuotaRecord) → IsSlotFor mac i rs → i < length rs
slot-lt mac i rs (inl h) = find_slot-lt _ rs h
slot-lt mac i rs (inr h) = h.1

set-IsFound :
    (mac day i : ℕ) (q q' : Quota) (v : QuotaRecord)
    → IsSlotFor mac i q.records
    → q'.records ≡ set q.records i v
    → valid_with_mac mac v ≡ true
    → v.day_id ≡ day
    → v.used_seconds ≡ used_on mac day q.records
    → IsFound mac day q q' i
set-IsFound mac day i q q' v slot wrote own today used = record {
  slot = slot;
  result = rw at_i wrote;
  within = rw (wrote, length-set q.records i v) (slot-lt mac i q.records slot);
  owner = rw at_i own;
  today = rw at_i today;
  kept = rw at_i used;
}
  where
    at_i : record_at q' i ≡ v
    at_i = rw wrote (get_or-set_self q.records i v no_record (slot-lt mac i q.records slot))

IsFound-IsFound :
    (mac day i : ℕ) (q : Quota)
    → find_slot (valid_with_mac mac) q.records ≡ some i
    → IsFound mac day q (roll_over i day q) i
unfolding roll_over
IsFound-IsFound mac day i q h = elim (Bool-cases ((record_at q i).day_id == day)) [
  | inl same ↦ rw same (
      set-IsFound mac day i q q (record_at q i) (inl h) (sym (set-get_or q.records i no_record))
        (find_slot_sound _ q.records i no_record h) (ground arith)
        (ground (arith, used_on-found mac day i q.records h)))
  | inr new ↦ rw new (
      set-IsFound mac day i q _ (record (record_at q i) { day_id = day; used_seconds = 0 }) (inl h)
        refl (find_slot_sound _ q.records i no_record h) refl
        (ground (arith, used_on-found mac day i q.records h)))
]

or_zero-lt :
    (p : QuotaRecord → Bool) (rs : List QuotaRecord)
    → 0 < length rs
    → or_zero (find_slot p rs) < length rs
or_zero-lt p rs pos = elim (Option-cases (find_slot p rs)) [
  | inl e ↦ rw e pos
  | inr (i, e) ↦ rw e (find_slot-lt p rs e)
]

alloc-IsFound :
    (mac day : ℕ) (q : Quota)
    → QuotaInv q
    → find_slot (valid_with_mac mac) q.records ≡ none
    → let found = alloc_record mac day q in IsFound mac day q found.1 found.0
unfolding alloc_record
alloc-IsFound mac day q v h =
    set-IsFound mac day _ q _ (record { valid = true; mac = mac; day_id = day; used_seconds = 0 })
      (inr (h, or_zero-lt invalid q.records (omega (arith, v.size)))) refl (ground arith) refl
      (sym (used_on-absent mac day q.records h))

-- For a nonzero MAC the search always ends in a record of that MAC and day, which holds what the
-- MAC has used that day, and nothing else of the table is written.
pub find_or_alloc-IsFound :
    (mac day : ℕ) (q : Quota)
    → mac ≢ 0
    → QuotaInv q
    → (i : ℕ) × ((find_or_alloc_quota_record mac day q).0 ≡ some i)
      × IsFound mac day q (find_or_alloc_quota_record mac day q).1 i
unfolding find_or_alloc_quota_record find_or_alloc_nonzero
find_or_alloc-IsFound mac day q n v = elim (Bool-cases (mac == 0)) [
  | inl z ↦ absurd (n (ground arith))
  | inr z ↦ elim (Option-cases (find_slot (valid_with_mac mac) q.records)) [
    | inl e ↦ rw (z, e, find_or_alloc_nonzero) (_, refl, alloc-IsFound mac day q v e)
    | inr (i, e) ↦ rw (z, e, find_or_alloc_nonzero) (i, refl, IsFound-IsFound mac day i q e)
  ]
]

pub IsFound-QuotaInv :
    (mac day : ℕ) (q q' : Quota) (i : ℕ)
    → mac ≢ 0
    → QuotaInv q
    → IsFound mac day q q' i
    → QuotaInv q'
IsFound-QuotaInv mac day q q' i n v f = record {
  size = rw f.result (length-set q.records i (record_at q' i) ∙ v.size);
  each = rw f.result (All-set IsRecord q.records i (record_at q' i) (small, owned) v.each);
}
  where
    small : (record_at q' i).used_seconds ≤ daily_quota_sec
    small = rw f.kept (used_on-le mac day q.records v.each)

    owned : (record_at q' i).valid ≡ true → (record_at q' i).mac ≢ 0
    owned _ = let m : (record_at q' i).mac ≡ mac = ground (arith, f.owner) in rw m n

pub find_or_alloc-QuotaInv :
    (mac day : ℕ) (q : Quota) → QuotaInv q → QuotaInv (find_or_alloc_quota_record mac day q).1
find_or_alloc-QuotaInv mac day q v = elim (Bool-cases (mac == 0)) [
  | inl z ↦ unfold find_or_alloc_quota_record in rw z v
  | inr z ↦
      let n : mac ≢ 0 = λ e. ground arith in
      let found = find_or_alloc-IsFound mac day q n v in
      IsFound-QuotaInv mac day q _ found.0 n v found.2
]

remaining_of-some :
    (r : Option ℕ × Quota) (i : ℕ)
    → r.0 ≡ some i
    → remaining_of r ≡ daily_quota_sec - (record_at r.1 i).used_seconds
unfolding remaining_of
remaining_of-some (none, q) i h = ground arith
remaining_of-some (some j, q) i h = ground arith

remaining_lem :
    (mac day : ℕ) (q : Quota)
    → mac ≢ 0
    → QuotaInv q
    → remaining_of (find_or_alloc_quota_record mac day q)
      ≡ daily_quota_sec - used_on mac day q.records
remaining_lem mac day q n v =
    let found = find_or_alloc-IsFound mac day q n v in
    rw (← found.2.kept) (remaining_of-some (find_or_alloc_quota_record mac day q) found.0 found.1)

pub day-records : (env : Env) (q : Quota) → (get_current_day_id env q).1.records ≡ q.records
unfolding get_current_day_id
day-records env q = ground arith

pub day-QuotaInv : (env : Env) (q : Quota) → QuotaInv q → QuotaInv (get_current_day_id env q).1
day-QuotaInv env q v = record {
  size = rw (day-records env q) v.size;
  each = rw (day-records env q) v.each;
}

remaining_split :
    (env : Env) (mac : ℕ) (q : Quota)
    → let today = get_current_day_id env q in
      (get_quota_remaining_for_mac env mac q).0 ≡ (
        if mac == 0
        then daily_quota_sec
        else remaining_of (find_or_alloc_quota_record mac today.0 today.1))
unfolding get_quota_remaining_for_mac
remaining_split env mac q = ground arith

quota_split :
    (env : Env) (mac : ℕ) (q : Quota)
    → let today = get_current_day_id env q in
      (get_quota_remaining_for_mac env mac q).1
      ≡ (if mac == 0 then today.1 else (find_or_alloc_quota_record mac today.0 today.1).1)
unfolding get_quota_remaining_for_mac
quota_split env mac q = ground arith

-- On a well-formed table the time left to a MAC is the daily quota less what it has used today;
-- an unknown (zero) MAC has the whole quota.
pub quota_remaining_refines :
    (env : Env) (mac : ℕ) (q : Quota)
    → QuotaInv q
    → (get_quota_remaining_for_mac env mac q).0 ≡ (
        if mac == 0
        then daily_quota_sec
        else daily_quota_sec - used_on mac (get_current_day_id env q).0 q.records)
quota_remaining_refines env mac q v = elim (Bool-cases (mac == 0)) [
  | inl z ↦ remaining_split env mac q ∙ rw z refl
  | inr z ↦
      remaining_split env mac q
      ∙ rw (z, remaining_lem mac _ _ (λ e. ground arith) (day-QuotaInv env q v), day-records env q)
          refl
]

pub quota_remaining-QuotaInv :
    (env : Env) (mac : ℕ) (q : Quota)
    → QuotaInv q
    → QuotaInv (get_quota_remaining_for_mac env mac q).1
quota_remaining-QuotaInv env mac q v = elim (Bool-cases (mac == 0)) [
  | inl z ↦ rw (quota_split env mac q, z) (day-QuotaInv env q v)
  | inr z ↦ rw (quota_split env mac q, z) (find_or_alloc-QuotaInv mac _ _ (day-QuotaInv env q v))
]
