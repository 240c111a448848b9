-- ===== src/Supabase.antt =====
-- The requests to the hosted database, main/supabase_client.c. esp_http_client answers them; gmtime_r and
-- strftime format a time.
pub mod Bodies
use esp32_wifi_ap_cp.Base.{
  ℕ, zero, ◌+◌, Bool, true, false, not, ◌&&◌, ◌||◌, Option, none, some, List, [], ◌∷◌, ◌++◌,
  if◌then◌else◌, leb, ltb, is_empty,
}
use esp32_wifi_ap_cp.Base.Errors.{
  EspErr, esp_ok, esp_fail, esp_err_no_mem, esp_err_invalid_arg, esp_err_invalid_state, is_ok,
}
use esp32_wifi_ap_cp.Base.Texts.{ℤ, codes, decimal, concat}
use esp32_wifi_ap_cp.Portal.Sessions.{strlcpy}

-- A POST request: its path, its JSON text, and its Prefer header.
pub record Sent : Type 0 where
  pub path : List ℕ
  pub body : List ℕ
  pub prefer : List ℕ

-- Whether the build still has the placeholder for the key; whether a client can be had; what a request to a
-- URL ends with, and its HTTP status.
pub record Http : Type 0 where
  pub placeholder_key : Bool
  pub init_ok : Bool
  pub base_url : List ℕ
  pub perform : List ℕ → Sent → EspErr × ℕ

-- The result, and what was given to esp_http_client_perform.
unfoldable pub perform_request : Http → Sent → EspErr × Option Sent
perform_request http req =
    let (err, status_code) = http.perform (strlcpy 256 (http.base_url ++ req.path)) req in
    if http.placeholder_key
    then (esp_err_invalid_state, none)
    else if not http.init_ok
    then (esp_err_no_mem, none)
    else if not (is_ok err)
    then (err, some req)
    else if leb 200 status_code && ltb status_code 300
    then (esp_ok, some req)
    else (esp_fail, some req)

-- time(NULL), and a time as 2025-01-31T12:00:00Z.
pub record Clock : Type 0 where
  pub time : ℕ
  pub format_timestamp_utc : ℕ → List ℕ

abbrev pub has_valid_time : Clock → Bool
has_valid_time c = not (ltb c.time 1700000000)

abbrev pub safe_remaining : ℤ → ℕ
safe_remaining (ℤ.pos n) = n
safe_remaining (ℤ.negsuc n) = 0

abbrev pub bool_text : Bool → List ℕ
bool_text b = if b then codes "true" else codes "false"

-- What both texts begin with.
abbrev pub names_text : List ℕ → List ℕ → List ℕ
names_text token hash = concat (
    codes "{\"token\":\""
    ∷ token
    ∷ codes "\",\"mac_hash\":\""
    ∷ hash
    ∷ codes "\",\"session_token\":\""
    ∷ token
    ∷ codes "\",\"device_hash\":\""
    ∷ hash
    ∷ [])

abbrev pub timed_text : Clock → List ℕ → List ℕ → ℕ → Bool → List ℕ → List ℕ
timed_text c token hash remaining connected status = concat (
    names_text token hash
    ∷ codes "\",\"session_end\":\""
    ∷ c.format_timestamp_utc (c.time + remaining)
    ∷ codes "\",\"remaining_seconds\":"
    ∷ decimal remaining
    ∷ codes ",\"status\":\""
    ∷ status
    ∷ codes "\",\"ap_connected\":"
    ∷ bool_text connected
    ∷ codes ",\"last_heartbeat\":\""
    ∷ c.format_timestamp_utc c.time
    ∷ codes "\"}"
    ∷ [])

abbrev pub untimed_text : List ℕ → List ℕ → ℕ → Bool → List ℕ → List ℕ
untimed_text token hash remaining connected status = concat (
    names_text token hash
    ∷ codes "\",\"remaining_seconds\":"
    ∷ decimal remaining
    ∷ codes ",\"status\":\""
    ∷ status
    ∷ codes "\",\"ap_connected\":"
    ∷ bool_text connected
    ∷ codes "}"
    ∷ [])

-- The text of a session's row, and the one that snprintf cuts to its buffer.
unfoldable pub session_text : Clock → List ℕ → List ℕ → ℤ → Bool → List ℕ → List ℕ
session_text c token hash remaining connected status =
    if has_valid_time c
    then timed_text c token hash (safe_remaining remaining) connected status
    else untimed_text token hash (safe_remaining remaining) connected status

unfoldable pub session_body : Clock → List ℕ → List ℕ → ℤ → Bool → List ℕ → List ℕ
session_body c token hash remaining connected status =
    strlcpy 768 (session_text c token hash remaining connected status)

unfoldable pub supabase_upsert_session :
    Http → Clock → List ℕ → List ℕ → ℤ → Bool → List ℕ → EspErr × Option Sent
supabase_upsert_session http c token hash remaining connected status =
    if is_empty token || (is_empty hash || is_empty status)
    then (esp_err_invalid_arg, none)
    else perform_request http (record {
      path = codes "/rest/v1/sessions?on_conflict=token";
      body = session_body c token hash remaining connected status;
      prefer = codes "resolution=merge-duplicates,return=representation";
    })

abbrev pub is_above_zero : ℤ → Bool
is_above_zero (ℤ.pos n) = ltb 0 n
is_above_zero (ℤ.negsuc n) = false

unfoldable pub supabase_create_session : Http → Clock → List ℕ → List ℕ → ℤ → EspErr × Option Sent
supabase_create_session http c token hash duration =
    supabase_upsert_session http c token hash duration true (codes "active")

unfoldable pub supabase_update_heartbeat : Http → Clock → List ℕ → List ℕ → ℤ → EspErr × Option Sent
supabase_update_heartbeat http c token hash remaining =
    supabase_upsert_session http c token hash remaining true
      (if is_above_zero remaining then codes "active" else codes "expired")

unfoldable pub supabase_mark_disconnected :
    Http → Clock → List ℕ → List ℕ → ℤ → EspErr × Option Sent
supabase_mark_disconnected http c token hash remaining =
    supabase_upsert_session http c token hash remaining false (codes "disconnected")

unfoldable pub supabase_post_upsert :
    Http → Option (List ℕ) → Option (List ℕ) → EspErr × Option Sent
supabase_post_upsert http none json_body = (esp_err_invalid_arg, none)
supabase_post_upsert http (some path) none = (esp_err_invalid_arg, none)
supabase_post_upsert http (some path) (some json_body) =
    perform_request http
      (record { path = path; body = json_body; prefer = codes "resolution=merge-duplicates" })

-- s_initialized after supabase_init, which logs the first time.
abbrev pub supabase_init : Bool → Bool
supabase_init s_initialized = true
