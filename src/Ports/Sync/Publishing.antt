-- ===== src/Ports/Sync/Publishing.antt =====
-- Which statuses main/port_sensors.c publishes, and when.
use esp32_wifi_ap_cp.Base.{
  ℕ, ◌≡◌, refl, Bool, true, not, ◌&&◌, arith, is_some, All, Bool-cases, inl, inr,
}
use esp32_wifi_ap_cp.Ports.Bus.{Status, Port, Push, Ports, put_port}
use esp32_wifi_ap_cp.Ports.Sync.{
  accumulate, is_availability, is_due, same_status, sync_port, log_push,
}

same_status_refl : (a : Status) → same_status a a ≡ true
same_status_refl a = ground arith

accumulate_keeps :
    (now_ms : ℕ) (status : Status) (p : Port)
    → let p' = accumulate now_ms status p in
      (p'.last_pushed_status ≡ p.last_pushed_status) × (p'.last_pushed_ts_ms ≡ p.last_pushed_ts_ms)
unfolding accumulate
accumulate_keeps now_ms status p = (refl, refl)

-- In a round that reads a port which is present, as available or in use, its status is sent exactly if it
-- is due: it is new, or the heartbeat interval has passed. After the round the same status is due at that
-- time exactly if it was due before and the database did not take it.
pub publishing :
    (id now_ms : ℕ) (status : Status) (post_ok : Bool) (p : Port)
    → p.present ≡ true
    → is_availability status ≡ true
    → let (p', push) = sync_port id now_ms status post_ok p in
      (is_some push ≡ is_due now_ms status p)
      × (is_due now_ms status p' ≡ (is_due now_ms status p && not post_ok))
unfolding sync_port
publishing id now_ms status post_ok p on a =
    let keeps = accumulate_keeps now_ms status p in
    let same = same_status_refl status in (ground (arith, keeps), ground (arith, keeps, same))

abbrev pub IsAvailability : Push → Type 0
IsAvailability push = is_availability push.status ≡ true

sync_port-push :
    (id now_ms : ℕ) (status : Status) (post_ok : Bool) (p : Port) (s : Ports)
    → All IsAvailability s.pushes
    → let (p', push) = sync_port id now_ms status post_ok p in
      All IsAvailability (log_push push (put_port id p' s)).pushes
unfolding sync_port
sync_port-push id now_ms status post_ok p s v = elim (Bool-cases (is_availability status)) [
  | inl a ↦ ground (arith, v, a)
  | inr n ↦ ground (arith, v, n)
]
