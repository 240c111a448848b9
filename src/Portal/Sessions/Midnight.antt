-- ===== src/Portal/Sessions/Midnight.antt =====
-- checkpoint_session_usage of main/http_server.c for a session of another day.
use esp32_wifi_ap_cp.Base.{
  ℕ, ◌≡◌, sym, ◌≢◌, ◌∙◌, Bool, true, false, Option, none, some, List, arith, ◌==◌, set, set-set,
}
use esp32_wifi_ap_cp.Portal.Quota.{
  Env, Quota, QuotaRecord, valid_with_mac, record_at, find_or_alloc_quota_record,
}
use esp32_wifi_ap_cp.Portal.Quota.Usage.{QuotaInv, IsSlotFor, used_on, used_on-set}
use esp32_wifi_ap_cp.Portal.Quota.Remaining.{IsFound, find_or_alloc-IsFound}
use esp32_wifi_ap_cp.Portal.Sessions.{
  Session, charge, charge_session, session_day, nothing_to_charge, checkpoint_session_usage,
}
use esp32_wifi_ap_cp.Portal.Sessions.Charging.{flush-records}

other_day_written :
    (mac day i used : ℕ) (rs rs1 : List QuotaRecord) (r : QuotaRecord)
    → IsSlotFor mac i rs
    → rs1 ≡ set rs i r
    → valid_with_mac mac r ≡ true
    → r.day_id ≢ day
    → used_on mac day (set rs1 i (record r { used_seconds = used })) ≡ 0
other_day_written mac day i used rs rs1 r slot wrote own other =
    rw (wrote, set-set rs i r (record r { used_seconds = used }))
      (used_on-set mac day i (record r { used_seconds = used }) rs own slot ∙ ground (arith, other))

charge-other_day :
    (mac own day delta i : ℕ) (q : Quota) (r : Option ℕ × Quota)
    → r.0 ≡ some i
    → IsFound mac own q r.1 i
    → own ≢ day
    → used_on mac day (charge delta r).records ≡ 0
unfolding charge
charge-other_day mac own day delta i q (none, q1) e f n = ground arith
charge-other_day mac own day delta i q (some j, q1) e f n =
    let same : j ≡ i = ground arith in
    rw same (
      other_day_written mac day i _ q.records q1.records (record_at q1 i) f.slot f.result f.owner
        (λ t. n (sym f.today ∙ t)))

-- The table keeps one day for each MAC: on a well-formed table, charging a session that counts
-- for one day wipes out what the client has used on any other.
pub charging_forgets_other_day :
    (env : Env) (force : Bool) (s : Session) (q : Quota) (day : ℕ)
    → QuotaInv q
    → nothing_to_charge s env.now ≡ false
    → s.day_id ≢ 0
    → s.day_id ≢ day
    → used_on s.mac day (checkpoint_session_usage env force s q).1.records ≡ 0
unfolding checkpoint_session_usage charge_session session_day
charging_forgets_other_day env force s q day v due z n =
    let own : s.mac ≢ 0 = λ e. ground arith in
    let dated : (s.day_id == 0) ≡ false = ground (arith, z) in
    let (i, e, f) = find_or_alloc-IsFound s.mac s.day_id q own v in
    rw (due, flush-records env force (charge_session env s q), dated)
      (charge-other_day s.mac s.day_id day _ i q (find_or_alloc_quota_record s.mac s.day_id q) e f
        n)
