-- ===== src/Admin/Auth.antt =====
-- Who may use the administration page: check_auth of main/http_server.c and the handlers that call it.
use esp32_wifi_ap_cp.Base.{
  ℕ, ◌≡◌, ◌⊎◌, inl, inr, refl, true, false, Option, none, some, List, [], ◌∷◌, arith, drop, str_eq,
  Bool-cases, take,
}
use esp32_wifi_ap_cp.Config.Text.{before_nul}
use esp32_wifi_ap_cp.Config.Store.{Nvs, Store}
use esp32_wifi_ap_cp.Portal.Sessions.{strlcpy}
use esp32_wifi_ap_cp.Admin.{
  Login, Post, AdminPage, decoded_size, decoded_text, basic, is_auth_ok, check_basic, check_header,
  check_auth, admin_config_post_handler,
}

-- The header carries, after its first six characters, a text whose decoded form is the credentials.
abbrev pub HasCredentials : Login → Type 0
HasCredentials l =
    (header : List ℕ) × (l.header ≡ some header)
    × (str_eq (take 6 header) basic ≡ true)
    × (str_eq (before_nul (decoded_text l.leftover (l.base64 (drop 6 header))))
          (strlcpy decoded_size l.credentials)
        ≡ true)

check_basic_ok :
    (l : Login) (header : List ℕ)
    → is_auth_ok (check_basic l header).0 ≡ true
    → (str_eq (take 6 header) basic ≡ true)
      × (str_eq
            (before_nul (decoded_text l.leftover (l.base64 (drop 6 header))))
            (strlcpy decoded_size l.credentials)
          ≡ true)
unfolding check_basic
check_basic_ok l header ok = elim (Bool-cases (str_eq (take 6 header) basic)) [
  | inl e ↦
      elim (Bool-cases (
        str_eq (before_nul (decoded_text l.leftover (l.base64 (drop 6 header))))
          (strlcpy decoded_size l.credentials))) [
            | inl f ↦ (e, f)
            | inr f ↦ ground (arith, ok, e, f)
          ]
  | inr e ↦ ground (arith, ok, e)
]

check_header_ok :
    (l : Login) (h : Option (List ℕ))
    → is_auth_ok (check_header l h).0 ≡ true
    → (header : List ℕ) × (h ≡ some header)
      × (str_eq (take 6 header) basic ≡ true)
      × (str_eq
            (before_nul (decoded_text l.leftover (l.base64 (drop 6 header))))
            (strlcpy decoded_size l.credentials)
          ≡ true)
unfolding check_header
check_header_ok l none ok = ground (arith, ok)
check_header_ok l (some []) ok = ground (arith, ok)
check_header_ok l (some (c ∷ cs)) ok =
    let right = check_basic_ok l (c ∷ cs) ok in (c ∷ cs, refl, right.0, right.1)

-- A request to store settings or to restart is turned away, with no restart and every setting as it was,
-- or else its header carries, after "Basic ", a text whose decoded form, up to its first NUL, is the
-- credentials; a text that decodes to more than 64 bytes stands for what the buffer held before.
pub post_needs_credentials :
    (nvs : Nvs) (r : Post) (s : Store)
    → (admin_config_post_handler nvs r s ≡ (AdminPage.denied, false, s)) ⊎ HasCredentials r.login
unfolding admin_config_post_handler check_auth
post_needs_credentials nvs r s = elim (Bool-cases (is_auth_ok (check_auth r.login).0)) [
  | inl e ↦ inr (check_header_ok r.login r.login.header e)
  | inr e ↦ inl (rw e refl)
]
