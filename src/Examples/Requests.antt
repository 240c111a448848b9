-- ===== src/Examples/Requests.antt =====
-- The theorems on admin_ports.c and supabase_client.c.
use esp32_wifi_ap_cp.Base.{
  ℕ, ◌+◌, ◌≤◌, ◌<◌, ◌≡◌, refl, true, false, some, List, [], ◌∷◌, ◌++◌, arith, replicate, take, All,
}
use esp32_wifi_ap_cp.Base.Errors.{EspErr, esp_ok, is_ok}
use esp32_wifi_ap_cp.Base.Texts.{ℤ, codes, concat}
use esp32_wifi_ap_cp.Portal.Sessions.{strlcpy}
use esp32_wifi_ap_cp.Api.{answer_of, port_payload, api_ports_handler, append_pieces, scan_pieces}
use esp32_wifi_ap_cp.Api.Rendering.{append_pieces_cuts}
use esp32_wifi_ap_cp.Api.Updates.{
  NothingOrKnown, port_form, in_one_piece, ports, statuses, port_update_is_known, form_is_posted,
}
use esp32_wifi_ap_cp.Supabase.{
  Sent, Http, Clock, perform_request, session_text, supabase_upsert_session,
}
use esp32_wifi_ap_cp.Supabase.Bodies.{IsRow, stored_row_is_whole}

append_pieces_cuts_example :
    append_pieces (9 + 1) (scan_pieces (64 ∷ 65 ∷ []) 2) []
    ≡ take 9 (concat (scan_pieces (64 ∷ 65 ∷ []) 2))
append_pieces_cuts_example = append_pieces_cuts 9 (scan_pieces (64 ∷ 65 ∷ []) 2)

abbrev taken : List ℕ → EspErr
taken text = esp_ok

port_update_is_known_example :
    NothingOrKnown
      (api_ports_handler taken (in_one_piece (port_form (codes "usb_a_1") (codes "in_use")))).1
port_update_is_known_example =
    port_update_is_known taken (in_one_piece (port_form (codes "usb_a_1") (codes "in_use")))

form_is_posted_example :
    All
      (λ key.
        All
          (λ status.
            api_ports_handler taken (in_one_piece (port_form key status))
            ≡ (answer_of (taken (port_payload key status)), some (port_payload key status)))
          statuses)
      ports
form_is_posted_example = form_is_posted taken

-- The server answers 201; a time is 20 zeros.
abbrev http : Http
http = record {
  placeholder_key = false;
  init_ok = true;
  base_url = codes "https://db";
  perform = λ url req. (esp_ok, 201);
}

abbrev clock : Clock
clock = record { time = 1750000000; format_timestamp_utc = λ t. replicate 20 b'0' }

row : IsRow clock (codes "t1") (codes "h1") (codes "active")
row = record {
  token_fits = omega arith;
  hash_fits = omega arith;
  status_fits = omega arith;
  times_fit = λ t. omega arith;
}

row_is_stored :
    is_ok
      (supabase_upsert_session http clock
        (codes "t1")
        (codes "h1")
        (ℤ.pos 60)
        true
        (codes "active")).0
    ≡ true
unfolding supabase_upsert_session perform_request
row_is_stored = refl

stored_row_is_whole_example :
    (req : Sent) × ((supabase_upsert_session http clock
        (codes "t1")
        (codes "h1")
        (ℤ.pos 60)
        true
        (codes "active")).1
      ≡ some req)
    × (req.body ≡ session_text clock (codes "t1") (codes "h1") (ℤ.pos 60) true (codes "active"))
    × (200 ≤ (http.perform (strlcpy 256 (http.base_url ++ req.path)) req).1)
    × ((http.perform (strlcpy 256 (http.base_url ++ req.path)) req).1 < 300)
stored_row_is_whole_example =
    stored_row_is_whole http clock (codes "t1") (codes "h1") (ℤ.pos 60) true (codes "active") row
      row_is_stored
