-- ===== src/Portal/Events/Leaving.antt =====
-- What handle_client_disconnect of main/http_server.c leaves of a client.
use esp32_wifi_ap_cp.Base.{ℕ, ◌<◌, ◌≡◌, false}
use esp32_wifi_ap_cp.Portal.State.{Portal}
use esp32_wifi_ap_cp.Portal.State.Ending.{live_at}

-- The slots below `i` hold no session of the client.
GoneBelow : ℕ → ℕ → Portal → Type 0
GoneBelow mac i p = (j : ℕ) → j < i → live_at mac p j ≡ false
