-- ===== src/Pzem/Meter/Outlet.antt =====
-- When main/pzem_reader.c publishes the status of the outlet.
use esp32_wifi_ap_cp.Base.{ℕ, Bool, true, false, not, ◌≡◌, refl, List, [], ◌∷◌, arith, ltb}
use esp32_wifi_ap_cp.Base.Errors.{EspErr, esp_ok}
use esp32_wifi_ap_cp.Pzem.Frames.{Reading, Uart}
use esp32_wifi_ap_cp.Pzem.Meter.{
  Post, Meter, outlet_in_use, energy_wh_today, pzem_sync_station_state, publish_outlet,
  pzem_reader_read, take_reading, pzem_round,
}

-- The statuses sent, the last first.
abbrev pub statuses : List Post → List Bool
statuses [] = []
statuses (Post.station_state r today ∷ ps) = statuses ps
statuses (Post.outlet_status b ∷ ps) = b ∷ statuses ps

abbrev pub Alternate : List Bool → Type 0
Alternate [] = Unit
Alternate (a ∷ []) = Unit
Alternate (a ∷ b ∷ bs) = (a ≡ not b) × Alternate (b ∷ bs)

abbrev pub Latest : Bool → List Bool → Type 0
Latest a [] = ⊥
Latest a (b ∷ bs) = a ≡ b

-- What holds of the statuses sent, by the task's locals and its last reading.
abbrev pub AgreesWith : Bool → Bool → List Bool → Type 0
AgreesWith false last bs = bs ≡ []
AgreesWith true last bs = Latest last bs

pub record OutletInv (m : Meter) : Type 0 where
  pub alternate : Alternate (statuses m.posts)
  pub published : AgreesWith m.last_outlet_published m.last_outlet_in_use (statuses m.posts)
  pub latest :
      m.last_reading_valid ≡ true
      → (m.last_outlet_published ≡ true)
        × (m.last_outlet_in_use ≡ ltb outlet_in_use m.last_reading.power)

push-Alternate :
    (b last : Bool) (bs : List Bool)
    → Alternate bs
    → Latest last bs
    → b ≡ not last
    → Alternate (b ∷ bs)
push-Alternate b last [] a l e = tt
push-Alternate b last (c ∷ bs) a l e = ground arith

publish_lem :
    (b sent last : Bool) (bs : List Bool) (m : Meter)
    → m.last_outlet_published ≡ sent
    → m.last_outlet_in_use ≡ last
    → statuses m.posts ≡ bs
    → Alternate bs
    → AgreesWith sent last bs
    → let m' = publish_outlet b m in
      Alternate (statuses m'.posts)
      × (m'.last_outlet_published ≡ true)
      × (m'.last_outlet_in_use ≡ b)
      × Latest b (statuses m'.posts)
unfolding publish_outlet
publish_lem b false last bs m e f g a p = rw (e, g, p) (tt, refl, refl, refl)
publish_lem true true true bs m e f g a p = rw (e, f, g) (a, refl, refl, p)
publish_lem false true false bs m e f g a p = rw (e, f, g) (a, refl, refl, p)
publish_lem true true false bs m e f g a p =
    rw (e, f, g) (push-Alternate true false bs a p refl, refl, refl, refl)
publish_lem false true true bs m e f g a p =
    rw (e, f, g) (push-Alternate false true bs a p refl, refl, refl, refl)

-- A post of the station's state is no status of the outlet, and the locals of the task stay.
station_lem :
    (now : ℕ) (r : Reading) (m : Meter)
    → let m' = pzem_sync_station_state now r m in
      (statuses m'.posts ≡ statuses m.posts)
      × (m'.last_outlet_published ≡ m.last_outlet_published)
      × (m'.last_outlet_in_use ≡ m.last_outlet_in_use)
      × (m'.last_reading ≡ m.last_reading)
unfolding pzem_sync_station_state energy_wh_today
station_lem now r m = ground arith

publish_keeps_reading : (b : Bool) (m : Meter) → (publish_outlet b m).last_reading ≡ m.last_reading
unfolding publish_outlet
publish_keeps_reading b m = ground arith

published_of :
    (b sent last : Bool) (bs : List Bool)
    → sent ≡ true
    → last ≡ b
    → Latest b bs
    → AgreesWith sent last bs
published_of b true last [] e f p = p
published_of b true last (c ∷ bs) e f p = ground arith
published_of b false last bs e f p = cc

accept-OutletInv :
    (now : ℕ) (r : Reading) (m : Meter) → OutletInv m → OutletInv (take_reading now esp_ok r m)
unfolding take_reading
accept-OutletInv now r m v =
    let m0 : Meter = record m { last_reading = r; last_reading_valid = true } in
    let m1 = pzem_sync_station_state now r m0 in
    let b = ltb outlet_in_use r.power in
    let station = station_lem now r m0 in
    let done =
      publish_lem b m.last_outlet_published m.last_outlet_in_use (statuses m.posts) m1
        (ground (arith, station)) (ground (arith, station)) (ground (arith, station)) v.alternate
        v.published in
    let kept = publish_keeps_reading b m1 in
    record {
      alternate = done.0;
      published = published_of b _ _ _ done.1 done.2 done.3;
      latest = λ _. (done.1, ground (arith, done.2, kept, station));
    }

take_reading-OutletInv :
    (now : ℕ) (err : EspErr) (r : Reading) (m : Meter)
    → OutletInv m
    → OutletInv (take_reading now err r m)
take_reading-OutletInv now esp_ok r m v = accept-OutletInv now r m v
take_reading-OutletInv now err r m v = unfold take_reading in v

abbrev pub pzem_rounds : List (ℕ × Uart) → Meter → Meter
pzem_rounds [] m = m
pzem_rounds ((now, u) ∷ rs) m = pzem_rounds rs (pzem_round now u m)

rounds_keep-OutletInv :
    (rs : List (ℕ × Uart)) (m : Meter) → OutletInv m → OutletInv (pzem_rounds rs m)
unfolding pzem_round
rounds_keep-OutletInv [] m v = v
rounds_keep-OutletInv ((now, u) ∷ rs) m v =
    let (err, r) = pzem_reader_read u m in
    rounds_keep-OutletInv rs (take_reading now err r m) (take_reading-OutletInv now err r m v)

start-OutletInv :
    (m : Meter)
    → m.last_reading_valid ≡ false
    → m.last_outlet_published ≡ false
    → statuses m.posts ≡ []
    → OutletInv m
start-OutletInv m r p s = record {
  alternate = rw s tt;
  published = rw (p, s) refl;
  latest = λ h. cc;
}

-- From the start of the task on, with no reading yet and no status of the outlet sent, whatever the meter
-- answers, and whenever: two statuses of the outlet that are sent one after the other differ, the last
-- one sent is that of the last reading, above 1 W or not, and there is one as soon as there is a reading.
-- None is sent again, whether or not it arrived.
pub rounds-OutletInv :
    (rs : List (ℕ × Uart)) (m : Meter)
    → m.last_reading_valid ≡ false
    → m.last_outlet_published ≡ false
    → statuses m.posts ≡ []
    → OutletInv (pzem_rounds rs m)
rounds-OutletInv rs m r p s = rounds_keep-OutletInv rs m (start-OutletInv m r p s)
