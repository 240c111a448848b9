-- ===== src/Examples/Admins.antt =====
-- The theorems on the administration page of http_server.c, for the credentials "admin:pw".
use esp32_wifi_ap_cp.Base.{
  ℕ, ◌≡◌, ◌⊎◌, refl, true, false, none, some, List, [], ◌∷◌, arith, length, replicate,
  if◌then◌else◌, ltb, inl, inr,
}
use esp32_wifi_ap_cp.Config.Text.{preprocess_string}
use esp32_wifi_ap_cp.Config.Text.Decoding.{done, as_is, quoted}
use esp32_wifi_ap_cp.Config.Store.{Key, put_all, set_and_commit, set_ap, reboot}
use esp32_wifi_ap_cp.Config.Boot.{load_config, wifi_init}
use esp32_wifi_ap_cp.Base.Errors.{is_ok}
use esp32_wifi_ap_cp.Portal.Sessions.{strlcpy}
use esp32_wifi_ap_cp.Admin.{
  Login, Post, Action, AdminPage, Field, save_ap_form, admin_config_post_handler,
}
use esp32_wifi_ap_cp.Admin.Auth.{HasCredentials, post_needs_credentials}
use esp32_wifi_ap_cp.Admin.Saving.{ap_form_decodes_twice}
use esp32_wifi_ap_cp.Examples.Settings.{nvs, fresh, nvs-IsReadable}

abbrev admin_pw : List ℕ
admin_pw = b'a' ∷ b'd' ∷ b'm' ∷ b'i' ∷ b'n' ∷ b':' ∷ b'p' ∷ b'w' ∷ []

-- "Basic x", where x decodes to 65 letters, after a log-in of the administrator.
abbrev long_login : Login
long_login = record {
  header = some (b'B' ∷ b'a' ∷ b's' ∷ b'i' ∷ b'c' ∷ b' ' ∷ b'x' ∷ []);
  base64 = λ text. some (replicate 65 b'y');
  leftover = admin_pw;
  credentials = admin_pw;
}

-- The password "a+b" as a browser sends it.
abbrev quoted_field : Field
quoted_field = record { found = true; out = b'a' ∷ b'%' ∷ b'2' ∷ b'B' ∷ b'b' ∷ [] }

abbrev name_field : Field
name_field = record { found = true; out = b'n' ∷ [] }

abbrev field_of : Key → Field
field_of Key.ap_ssid = name_field
field_of k = quoted_field

abbrev request : Post
request = record {
  login = record long_login { header = none };
  received = true;
  action = Action.save_ap;
  field = field_of;
  room = true;
  accepted = true;
}

post_needs_credentials_example :
    (admin_config_post_handler nvs request fresh ≡ (AdminPage.denied, false, fresh))
    ⊎ HasCredentials request.login
post_needs_credentials_example = post_needs_credentials nvs request fresh

abbrev a_plus_b : List ℕ
a_plus_b = b'a' ∷ b'+' ∷ b'b' ∷ []

saved : is_ok (save_ap_form nvs request fresh).0 ≡ true
unfolding save_ap_form set_ap set_and_commit put_all
saved = refl

ap_form_decodes_twice_example :
    let w = wifi_init (load_config nvs (reboot nvs (save_ap_form nvs request fresh).1)) in
    let pw = preprocess_string a_plus_b in
    (w.ap_ssid ≡ strlcpy 32 (preprocess_string (b'n' ∷ [])))
    × (w.authmode_open ≡ ltb (length pw) 8)
    × (w.ap_password ≡ (if ltb (length pw) 8 then [] else strlcpy 64 pw))
ap_form_decodes_twice_example =
    ap_form_decodes_twice nvs nvs request fresh refl refl
      (as_is b'n' (λ h. omega arith) (λ h. omega arith) (λ h. omega arith) done) refl
      (as_is b'a' (λ h. omega arith) (λ h. omega arith) (λ h. omega arith)
        (quoted b'+' b'2' b'B' 2 11 refl (λ h. omega arith) (inl (omega arith, refl))
          (inr (inl (omega arith, omega arith, refl)))
          (as_is b'b' (λ h. omega arith) (λ h. omega arith) (λ h. omega arith) done)))
      refl saved nvs-IsReadable
