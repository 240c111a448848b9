-- ===== src/Portal/Sessions/Charging.antt =====
-- checkpoint_session_usage of main/http_server.c: the time that a session has run is charged once.
use esp32_wifi_ap_cp.Base.{
  ℕ, ◌+◌, ◌-◌, ◌≤◌, ◌≡◌, ◌≢◌, ◌∙◌, inl, inr, Bool, true, false, Option, none, some, List, arith,
  min, set, set-set, length-set, All-set, All-get_or, Bool-cases,
}
use esp32_wifi_ap_cp.Portal.Quota.{
  Env, Quota, QuotaRecord, no_record, daily_quota_sec, u32, valid_with_mac, record_at,
  find_or_alloc_quota_record, flush_quota_state,
}
use esp32_wifi_ap_cp.Portal.Quota.Usage.{
  QuotaInv, IsRecord, IsSlotFor, no_record-IsRecord, used_on, used_on-set, used_on-le,
}
use esp32_wifi_ap_cp.Portal.Quota.Remaining.{
  IsFound, find_or_alloc-IsFound, find_or_alloc-QuotaInv, day-records,
}
use esp32_wifi_ap_cp.Portal.Sessions.{
  Session, nothing_to_charge, elapsed_of, capped_use, charge, session_day, charge_session,
  flush_if_forced, checkpoint_session_usage,
}

pub flush-records :
    (env : Env) (force : Bool) (q : Quota) → (flush_quota_state env force q).records ≡ q.records
unfolding flush_quota_state
flush-records env force q = ground arith

records-QuotaInv : (q q' : Quota) → q'.records ≡ q.records → QuotaInv q → QuotaInv q'
records-QuotaInv q q' e v = record { size = rw e v.size; each = rw e v.each }

pub flush-QuotaInv :
    (env : Env) (force : Bool) (q : Quota) → QuotaInv q → QuotaInv (flush_quota_state env force q)
flush-QuotaInv env force q v = records-QuotaInv q _ (flush-records env force q) v

charge-some-QuotaInv : (delta i : ℕ) (q : Quota) → QuotaInv q → QuotaInv (charge delta (some i, q))
unfolding charge
charge-some-QuotaInv delta i q v = record {
  size = length-set q.records i _ ∙ v.size;
  each =
      All-set IsRecord q.records i _
        (ground arith, (All-get_or IsRecord q.records i no_record no_record-IsRecord v.each).1)
        v.each;
}

charge-QuotaInv : (delta : ℕ) (r : Option ℕ × Quota) → QuotaInv r.1 → QuotaInv (charge delta r)
charge-QuotaInv delta (none, q) v = unfold charge in v
charge-QuotaInv delta (some i, q) v = charge-some-QuotaInv delta i q v

day_of_session-records :
    (env : Env) (s : Session) (q : Quota) → (session_day env s q).1.records ≡ q.records
unfolding session_day
day_of_session-records env s q = ground (arith, day-records env q)

charge_session-QuotaInv :
    (env : Env) (s : Session) (q : Quota) → QuotaInv q → QuotaInv (charge_session env s q)
unfolding charge_session
charge_session-QuotaInv env s q v =
    charge-QuotaInv _ _
      (find_or_alloc-QuotaInv s.mac _ _ (records-QuotaInv q _ (day_of_session-records env s q) v))

idle-QuotaInv :
    (env : Env) (force : Bool) (q : Quota) → QuotaInv q → QuotaInv (flush_if_forced env force q)
idle-QuotaInv env true q v = flush-QuotaInv env true q v
idle-QuotaInv env false q v = v

-- Charging keeps every record within the daily quota.
pub checkpoint-QuotaInv :
    (env : Env) (force : Bool) (s : Session) (q : Quota)
    → QuotaInv q
    → QuotaInv (checkpoint_session_usage env force s q).1
unfolding checkpoint_session_usage
checkpoint-QuotaInv env force s q v = elim (Bool-cases (nothing_to_charge s env.now)) [
  | inl idle ↦ rw idle (idle-QuotaInv env force q v)
  | inr due ↦ rw due (flush-QuotaInv env force _ (charge_session-QuotaInv env s q v))
]

-- At one instant a session is charged once: a second checkpoint finds nothing to charge.
pub checkpoint_charges_once :
    (env : Env) (force : Bool) (s : Session) (q : Quota)
    → nothing_to_charge s env.now ≡ false
    → nothing_to_charge (checkpoint_session_usage env force s q).0 env.now ≡ true
unfolding checkpoint_session_usage
checkpoint_charges_once env force s q due = ground arith

charge_written :
    (mac day i used : ℕ) (rs rs1 : List QuotaRecord) (r : QuotaRecord)
    → IsSlotFor mac i rs
    → rs1 ≡ set rs i r
    → valid_with_mac mac r ≡ true
    → r.day_id ≡ day
    → used_on mac day (set rs1 i (record r { used_seconds = used })) ≡ used
charge_written mac day i used rs rs1 r slot wrote own today =
    rw (wrote, set-set rs i r (record r { used_seconds = used }))
      (used_on-set mac day i (record r { used_seconds = used }) rs own slot ∙ ground arith)

charge-used :
    (mac day delta i : ℕ) (q : Quota) (r : Option ℕ × Quota)
    → r.0 ≡ some i
    → IsFound mac day q r.1 i
    → used_on mac day (charge delta r).records
      ≡ capped_use (u32 (used_on mac day q.records + delta))
unfolding charge
charge-used mac day delta i q (none, q1) e f = ground arith
charge-used mac day delta i q (some j, q1) e f =
    let same : j ≡ i = ground arith in
    rw (same, ← f.kept)
      (charge_written mac day i _ q.records q1.records (record_at q1 i) f.slot f.result f.owner
        f.today)

capped_use-min :
    (used delta : ℕ)
    → used ≤ daily_quota_sec
    → delta ≤ daily_quota_sec
    → capped_use (u32 (used + delta)) ≡ min daily_quota_sec (used + delta)
capped_use-min used delta a b = ground arith

within :
    (s : Session) (now : ℕ)
    → s.granted_seconds ≤ daily_quota_sec
    → elapsed_of s now - s.accounted_seconds ≤ daily_quota_sec
within s now g = ground arith

-- On a well-formed quota table, a checkpoint that has something to charge adds the seconds run
-- since the last one to what the client has used on the session's day, up to the daily quota; the
-- seconds granted must be within the quota.
pub checkpoint_charges :
    (env : Env) (force : Bool) (s : Session) (q : Quota)
    → QuotaInv q
    → s.granted_seconds ≤ daily_quota_sec
    → nothing_to_charge s env.now ≡ false
    → let day = (session_day env s q).0 in
      used_on s.mac day (checkpoint_session_usage env force s q).1.records
      ≡ min daily_quota_sec
          (used_on s.mac day q.records + (elapsed_of s env.now - s.accounted_seconds))
unfolding checkpoint_session_usage charge_session
checkpoint_charges env force s q v g due =
    let today = session_day env s q in
    let v1 : QuotaInv today.1 = records-QuotaInv q _ (day_of_session-records env s q) v in
    let n : s.mac ≢ 0 = λ z. ground arith in
    let (i, e, f) = find_or_alloc-IsFound s.mac today.0 today.1 n v1 in
    rw (due, flush-records env force (charge_session env s q))
      (charge-used s.mac today.0 _ i today.1 (find_or_alloc_quota_record s.mac today.0 today.1) e f
        ∙ (rw (day_of_session-records env s q)
            (capped_use-min _ _ (used_on-le s.mac today.0 q.records v.each) (within s env.now g))))
