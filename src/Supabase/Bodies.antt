-- ===== src/Supabase/Bodies.antt =====
-- That the rows of main/supabase_client.c reach the database whole.
use esp32_wifi_ap_cp.Base.{
  ℕ, ◌+◌, ◌≤◌, ◌<◌, ◌≡◌, refl, ap, ◌∙◌, Bool, true, false, ◌||◌, some, List, [], ◌∷◌, ◌++◌, arith,
  length, length-append, Bool-cases, inl, inr, is_empty,
}
use esp32_wifi_ap_cp.Base.Errors.{is_ok}
use esp32_wifi_ap_cp.Base.Texts.{ℤ, codes, decimal, decimal-length, concat, take_all}
use esp32_wifi_ap_cp.Portal.Sessions.{strlcpy}
use esp32_wifi_ap_cp.Supabase.{
  Sent, Http, Clock, perform_request, safe_remaining, bool_text, names_text, timed_text,
  untimed_text, session_text, session_body, supabase_upsert_session,
}

total : List (List ℕ) → ℕ
total [] = 0
total (p ∷ ps) = length p + total ps

length-concat : (ps : List (List ℕ)) → length (concat ps) ≡ total ps
unfolding total
length-concat [] = refl
length-concat (p ∷ ps) =
    length-append p (concat ps) ∙ ap (λ (n : ℕ). length p + n) (length-concat ps)

-- The sizes of a row's parts.
pub record IsRow (c : Clock) (token hash status : List ℕ) : Type 0 where
  pub token_fits : length token ≤ 32
  pub hash_fits : length hash ≤ 64
  pub status_fits : length status ≤ 12
  pub times_fit : (t : ℕ) → length (c.format_timestamp_utc t) ≤ 31

names_text-length :
    (token hash : List ℕ)
    → length token ≤ 32
    → length hash ≤ 64
    → length (names_text token hash) ≤ 260
unfolding total
names_text-length token hash t h = omega (
  arith,
  length-concat (
      codes "{\"token\":\""
      ∷ token
      ∷ codes "\",\"mac_hash\":\""
      ∷ hash
      ∷ codes "\",\"session_token\":\""
      ∷ token
      ∷ codes "\",\"device_hash\":\""
      ∷ hash
      ∷ []),
)

bool_text-length : (b : Bool) → length (bool_text b) ≤ 5
bool_text-length true = omega arith
bool_text-length false = omega arith

session_text-length :
    (c : Clock) (token hash : List ℕ) (remaining : ℤ) (connected : Bool) (status : List ℕ)
    → IsRow c token hash status
    → length (session_text c token hash remaining connected status) ≤ 767
unfolding session_text total
session_text-length c token hash remaining connected status r =
    let n = safe_remaining remaining in
    let names = names_text-length token hash r.token_fits r.hash_fits in
    let timed : length (timed_text c token hash n connected status) ≤ 767 = omega (
      arith,
      names,
      r.status_fits,
      r.times_fit (c.time + n),
      r.times_fit c.time,
      decimal-length n,
      bool_text-length connected,
      length-concat (
          names_text token hash
          ∷ codes "\",\"session_end\":\""
          ∷ c.format_timestamp_utc (c.time + n)
          ∷ codes "\",\"remaining_seconds\":"
          ∷ decimal n
          ∷ codes ",\"status\":\""
          ∷ status
          ∷ codes "\",\"ap_connected\":"
          ∷ bool_text connected
          ∷ codes ",\"last_heartbeat\":\""
          ∷ c.format_timestamp_utc c.time
          ∷ codes "\"}"
          ∷ []),
    ) in
    let untimed : length (untimed_text token hash n connected status) ≤ 767 = omega (
      arith,
      names,
      r.status_fits,
      decimal-length n,
      bool_text-length connected,
      length-concat (
          names_text token hash
          ∷ codes "\",\"remaining_seconds\":"
          ∷ decimal n
          ∷ codes ",\"status\":\""
          ∷ status
          ∷ codes "\",\"ap_connected\":"
          ∷ bool_text connected
          ∷ codes "}"
          ∷ []),
    ) in
    ground (arith, timed, untimed)

perform_request_ok :
    (http : Http) (req : Sent)
    → is_ok (perform_request http req).0 ≡ true
    → let answer = http.perform (strlcpy 256 (http.base_url ++ req.path)) req in
      ((perform_request http req).1 ≡ some req) × (200 ≤ answer.1) × (answer.1 < 300)
unfolding perform_request
perform_request_ok http req ok = ground (arith, ok)

-- A row whose token has up to 32 characters, its hash up to 64, its status up to 12 and its times up to 31
-- is reported as stored only if the request that was sent has the row's whole text, not cut to the buffer,
-- and the server answered it with a status from 200 to 299.
pub stored_row_is_whole :
    (http : Http) (c : Clock) (token hash : List ℕ) (remaining : ℤ) (connected : Bool)
    (status : List ℕ)
    → IsRow c token hash status
    → is_ok (supabase_upsert_session http c token hash remaining connected status).0 ≡ true
    → (req : Sent) × ((supabase_upsert_session http c token hash remaining connected status).1
        ≡ some req)
      × (req.body ≡ session_text c token hash remaining connected status)
      × (200 ≤ (http.perform (strlcpy 256 (http.base_url ++ req.path)) req).1)
      × ((http.perform (strlcpy 256 (http.base_url ++ req.path)) req).1 < 300)
unfolding supabase_upsert_session session_body
stored_row_is_whole http c token hash remaining connected status r ok =
    let req : Sent = record {
      path = codes "/rest/v1/sessions?on_conflict=token";
      body = session_body c token hash remaining connected status;
      prefer = codes "resolution=merge-duplicates,return=representation";
    } in
    elim (Bool-cases (is_empty token || (is_empty hash || is_empty status))) [
      | inl e ↦ ground (arith, ok, e)
      | inr e ↦
          let done = perform_request_ok http req (ground (arith, ok, e)) in
          (
            req,
            rw e done.0,
            take_all 767 _ (session_text-length c token hash remaining connected status r),
            done.1,
            done.2,
          )
    ]
