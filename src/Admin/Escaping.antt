-- ===== src/Admin/Escaping.antt =====
-- The size of html_escape's buffer, in main/http_server.c.
use esp32_wifi_ap_cp.Base.{ℕ, ◌+◌, ◌≡◌, refl, List, [], ◌∷◌, arith, length}
use esp32_wifi_ap_cp.Admin.{escaped_size, html_escape}

-- The text that html_escape writes and its NUL fill the buffer that it allocates exactly: no byte is
-- written outside of it.
pub html_escape_fits : (src : List ℕ) → length (html_escape src) + 1 ≡ escaped_size src
unfolding html_escape escaped_size
html_escape_fits [] = refl
html_escape_fits (c ∷ cs) = ground (arith, html_escape_fits cs)
