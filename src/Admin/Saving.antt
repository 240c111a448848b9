-- ===== src/Admin/Saving.antt =====
-- What the administration page stores, and what the next boot makes of it.
use esp32_wifi_ap_cp.Base.{
  ℕ, ◌≡◌, refl, ap, sym, ◌∙◌, true, false, Option, List, [], ◌∷◌, arith, is_empty, ltb, length,
  if◌then◌else◌,
}
use esp32_wifi_ap_cp.Base.Errors.{EspErr, is_ok}
use esp32_wifi_ap_cp.Config.Text.{preprocess_string}
use esp32_wifi_ap_cp.Config.Text.Decoding.{Encodes, preprocess_undoes_encoding}
use esp32_wifi_ap_cp.Config.Store.{Key, Nvs, Store, reboot, set_ap}
use esp32_wifi_ap_cp.Config.Boot.{load_config, wifi_init}
use esp32_wifi_ap_cp.Config.Boot.Settings.{IsReadable, set_ap_survives}
use esp32_wifi_ap_cp.Portal.Sessions.{strlcpy}
use esp32_wifi_ap_cp.Admin.{
  Field, Post, get_form_value, load_config_string_or_default, typed_or_stored, save_ap_form,
}

get_form_value_decodes :
    (f : Field) {s : List ℕ} → f.found ≡ true → Encodes s f.out → get_form_value f ≡ s
unfolding get_form_value
get_form_value_decodes f found e = rw found (preprocess_undoes_encoding e)

typed_lem :
    (s : List ℕ) (stored : Option (List ℕ)) → is_empty s ≡ false → typed_or_stored s stored ≡ s
typed_lem [] stored e = ground (arith, e)
typed_lem (c ∷ cs) stored e = refl

-- What the form of the access point amounts to, where a name and a password are typed.
save_ap_form_lem :
    (nvs : Nvs) (r : Post) (s : Store) {name password : List ℕ}
    → r.accepted ≡ true
    → (r.field Key.ap_ssid).found ≡ true
    → Encodes name (r.field Key.ap_ssid).out
    → (r.field Key.ap_passwd).found ≡ true
    → Encodes password (r.field Key.ap_passwd).out
    → is_empty password ≡ false
    → save_ap_form nvs r s
      ≡ set_ap nvs name password (load_config_string_or_default nvs Key.ap_passwd [] r.room s).1
unfolding save_ap_form
save_ap_form_lem nvs r s {name = name} {password = password} a f1 e1 f2 e2 p =
    let stored = (load_config_string_or_default nvs Key.ap_passwd [] r.room s).0 in
    rw
      (
        a,
        get_form_value_decodes (r.field Key.ap_ssid) f1 e1,
        get_form_value_decodes (r.field Key.ap_passwd) f2 e2,
        typed_lem password stored p,
      )
      refl

-- The form of the access point decodes twice: what the browser encoded as a name and as a password that
-- is not empty is decoded once more before the next boot uses it for the access point, as set_ap's
-- arguments are, where the form is saved without an error and NVS can be read at that boot.
pub ap_form_decodes_twice :
    (nvs nvs' : Nvs) (r : Post) (s : Store) {name password : List ℕ}
    → r.accepted ≡ true
    → (r.field Key.ap_ssid).found ≡ true
    → Encodes name (r.field Key.ap_ssid).out
    → (r.field Key.ap_passwd).found ≡ true
    → Encodes password (r.field Key.ap_passwd).out
    → is_empty password ≡ false
    → is_ok (save_ap_form nvs r s).0 ≡ true
    → IsReadable nvs'
    → let w = wifi_init (load_config nvs' (reboot nvs (save_ap_form nvs r s).1)) in
      let pw = preprocess_string password in
      (w.ap_ssid ≡ strlcpy 32 (preprocess_string name))
      × (w.authmode_open ≡ ltb (length pw) 8)
      × (w.ap_password ≡ (if ltb (length pw) 8 then [] else strlcpy 64 pw))
ap_form_decodes_twice nvs nvs' r s {name = name} {password = password} a f1 e1 f2 e2 p ok readable =
    let s1 = (load_config_string_or_default nvs Key.ap_passwd [] r.room s).1 in
    let saved = save_ap_form_lem nvs r s a f1 e1 f2 e2 p in
    let ok1 : is_ok (set_ap nvs name password s1).0 ≡ true =
      ap (λ (x : EspErr × Store). is_ok x.0) (sym saved) ∙ ok in
    rw saved (set_ap_survives nvs nvs' name password s1 ok1 readable)
