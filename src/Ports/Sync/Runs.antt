-- ===== src/Ports/Sync/Runs.antt =====
-- What a round of the task of main/port_sensors.c sends.
use mathlib.Core.List.{append_assoc}
use esp32_wifi_ap_cp.Base.{
  ℕ, zero, suc, ◌+◌, ◌≤◌, ◌<◌, ◌≡◌, refl, ap, sym, ◌∙◌, Bool, true, List, [], ◌∷◌, ◌++◌, arith,
  length, get_or, set, map, All, Option, none, some, ◌⊎◌, Option-cases, inl, inr, length-set,
}
use esp32_wifi_ap_cp.Base.Errors.{esp_ok}
use esp32_wifi_ap_cp.Ports.Bus.{
  port_sensor_count, Status, not_ready, available, in_use, fault, Port, Push, Ports, no_port,
  port_at, put_port,
}
use esp32_wifi_ap_cp.Ports.Reads.{Reading, fill_not_ready_reading, read_from, port_sensors_read_all}
use esp32_wifi_ap_cp.Ports.Sync.{
  is_availability, accumulate, update_daily_anchor_and_maybe_reset, sync_port, sync_from, log_push,
  Round, sync_round, clear_seconds,
}
use esp32_wifi_ap_cp.Ports.Sync.Keeping.{read_from-keeps, roll-keeps}

-- The same ports are present.
SamePresent : Ports → Ports → Type 0
SamePresent s s' = (j : ℕ) → (port_at s' j).present ≡ (port_at s j).present

clear_keeps_present :
    (ps : List Port) (j : ℕ)
    → (get_or (map clear_seconds ps) j no_port).present ≡ (get_or ps j no_port).present
clear_keeps_present [] j = refl
clear_keeps_present (p ∷ ps) zero = refl
clear_keeps_present (p ∷ ps) (suc j) = clear_keeps_present ps j

roll-SamePresent : (now : ℕ) (s : Ports) → SamePresent s (update_daily_anchor_and_maybe_reset now s)
unfolding SamePresent update_daily_anchor_and_maybe_reset
roll-SamePresent now s j = elim (Option-cases s.utc_day_anchor) [
  | inl e ↦ rw e refl
  | inr (d, e) ↦ rw e (ground (arith, clear_keeps_present s.ports j))
]

set_keeps_present :
    (ps : List Port) (i j : ℕ) (p : Port)
    → p.present ≡ (get_or ps i no_port).present
    → (get_or (set ps i p) j no_port).present ≡ (get_or ps j no_port).present
set_keeps_present [] i j p h = refl
set_keeps_present (q ∷ ps) zero zero p h = h
set_keeps_present (q ∷ ps) zero (suc j) p h = refl
set_keeps_present (q ∷ ps) (suc i) zero p h = refl
set_keeps_present (q ∷ ps) (suc i) (suc j) p h = set_keeps_present ps i j p h

-- Sent for one of the four ports, which is present, with the status that was read from it, available or
-- in use.
abbrev pub IsFresh : List Reading → Ports → Push → Type 0
IsFresh readings s push =
    (push.port < 4)
    × ((port_at s push.port).present ≡ true)
    × ((get_or readings push.port (fill_not_ready_reading push.port)).status ≡ push.status)
    × ((push.status ≡ available) ⊎ (push.status ≡ in_use))

IsSent : List Reading → Ports → Option Push → Type 0
IsSent readings s none = Unit
IsSent readings s (some push) = IsFresh readings s push

available_or_in_use :
    (status : Status) → is_availability status ≡ true → (status ≡ available) ⊎ (status ≡ in_use)
available_or_in_use available h = inl refl
available_or_in_use in_use h = inr refl
available_or_in_use fault h = cc
available_or_in_use not_ready h = cc

sync_port_sends :
    (readings : List Reading) (id now_ms : ℕ) (post_ok : Bool) (s0 s : Ports)
    → id < 4
    → SamePresent s0 s
    → let status = (get_or readings id (fill_not_ready_reading id)).status in
      IsSent readings s0 (sync_port id now_ms status post_ok (port_at s id)).1
unfolding sync_port SamePresent IsSent
sync_port_sends readings id now_ms post_ok s0 s l same =
    let status = (get_or readings id (fill_not_ready_reading id)).status in
    ground (arith, l, same id, available_or_in_use status)

sync_port_keeps_present :
    (id now_ms : ℕ) (status : Status) (post_ok : Bool) (p : Port)
    → (sync_port id now_ms status post_ok p).0.present ≡ p.present
unfolding sync_port accumulate
sync_port_keeps_present id now_ms status post_ok p = ground arith

log_keeps_ports : (push : Option Push) (s : Ports) → (log_push push s).ports ≡ s.ports
log_keeps_ports none s = refl
log_keeps_ports (some push) s = refl

-- What a part of a round sends, before what was sent already.
abbrev PartOfRound : List Reading → Ports → Ports → Ports → Type 0
PartOfRound readings s0 s s' =
    (new : List Push) × (s'.pushes ≡ new ++ s.pushes)
    × All (IsFresh readings s0) new
    × (length s'.ports ≡ length s.ports)

All-snoc :
    (readings : List Reading) (s0 : Ports) (xs : List Push) (y : Push)
    → All (IsFresh readings s0) xs
    → IsFresh readings s0 y
    → All (IsFresh readings s0) (xs ++ (y ∷ []))
All-snoc readings s0 [] y a b = (b, tt)
All-snoc readings s0 (x ∷ xs) y (a, rest) b = (a, All-snoc readings s0 xs y rest b)

-- One push, if any, and then the rest.
log_sends :
    (readings : List Reading) (s0 s s' : Ports) (push : Option Push)
    → IsSent readings s0 push
    → PartOfRound readings s0 (log_push push s) s'
    → PartOfRound readings s0 s s'
unfolding IsSent
log_sends readings s0 s s' none i rest = rest
log_sends readings s0 s s' (some push) i (new, e, a, l) = (
  new ++ (push ∷ []),
  e ∙ sym (append_assoc new (push ∷ []) s.pushes),
  All-snoc readings s0 new push a i,
  l,
)

sync_from_sends :
    (now_ms : ℕ) (readings : List Reading) (post_ok : ℕ → Bool) (n id : ℕ) (s0 s : Ports)
    → id + n ≤ 4
    → SamePresent s0 s
    → PartOfRound readings s0 s (sync_from now_ms readings post_ok n id s)
unfolding sync_from
sync_from_sends now_ms readings post_ok zero id s0 s l same = ([], refl, tt, refl)
sync_from_sends now_ms readings post_ok (suc n) id s0 s l same =
    let (new, e, a, k) =
      log_sends readings s0 (put_port id p s)
        (sync_from now_ms readings post_ok n (id + 1) (log_push push (put_port id p s))) push
        (sync_port_sends readings id now_ms (post_ok id) s0 s (omega arith) same)
        (sync_from_sends now_ms readings post_ok n (id + 1) s0 (log_push push (put_port id p s))
          (omega arith) next) in
    (new, e, a, k ∙ length-set s.ports id p)
  where
    status : Status
    status = (get_or readings id (fill_not_ready_reading id)).status

    p : Port
    p = (sync_port id now_ms status (post_ok id) (port_at s id)).0

    push : Option Push
    push = (sync_port id now_ms status (post_ok id) (port_at s id)).1

    next : SamePresent s0 (log_push push (put_port id p s))
    next =
        unfold SamePresent in
        λ j.
          ap (λ ps. (get_or ps j no_port).present) (log_keeps_ports push (put_port id p s))
          ∙ set_keeps_present s.ports id j p
              (sync_port_keeps_present id now_ms status (post_ok id) (port_at s id))
          ∙ same j

-- In each round of the task, whatever the sensors, the clocks and the database do: what is sent is sent for
-- one of the four ports that was present after the reads, with the status read from it in this round, and
-- that is available or in use. No fault, and no port that is not ready, overwrites a row. No port is added
-- or lost.
pub round_sends_what_is_read :
    (r : Round) (s : Ports)
    → let (err, readings, s1) = port_sensors_read_all r.bus s in
      (new : List Push) × ((sync_round r s).pushes ≡ new ++ s.pushes)
      × All (IsFresh readings s1) new
      × (length (sync_round r s).ports ≡ length s.ports)
unfolding sync_round port_sensors_read_all
round_sends_what_is_read r s =
    let (err, readings, s1) = read_from r.bus port_sensor_count 0 esp_ok [] s in
    let read = read_from-keeps r.bus port_sensor_count 0 esp_ok [] s in
    let roll = roll-keeps r.now s1 in
    let (new, e, a, k) =
      sync_from_sends r.now_ms readings r.post_ok port_sensor_count 0 s1
        (update_daily_anchor_and_maybe_reset r.now s1) (omega arith) (roll-SamePresent r.now s1) in
    (new, e ∙ ap (λ ps. new ++ ps) (roll.1 ∙ read.1), a, k ∙ roll.0 ∙ read.0)
