-- ===== src/Admin.antt =====
-- The administration page of main/http_server.c: the log-in, the forms, and what they store. The
-- decoder of Base64 is mbedtls's, the parser of forms esp_http_server's.
pub mod Auth
pub mod Escaping
pub mod Saving
use esp32_wifi_ap_cp.Base.{
  ℕ, suc, ◌/◌, ◌%◌, ◌+◌, Bool, true, false, not, ◌&&◌, ◌||◌, Option, none, some, List, [], ◌∷◌,
  ◌++◌, if◌then◌else◌, ◌==◌, leb, length, is_empty, take, drop, str_eq,
}
use esp32_wifi_ap_cp.Base.Errors.{EspErr, esp_ok, other, is_ok}
use esp32_wifi_ap_cp.Config.Text.{preprocess_string, before_nul}
use esp32_wifi_ap_cp.Config.Store.{
  Key, Nvs, Store, get_config_param_str, set_sta, set_sta_static, set_ap,
}
use esp32_wifi_ap_cp.Portal.Sessions.{strlcpy}

-- auth_status_t
pub data AuthStatus : Type 0 where
  auth_ok auth_missing auth_wrong : AuthStatus

abbrev pub decoded_size : ℕ
decoded_size = 64

-- What check_auth meets: the Authorization header, `none` if it is not there or there is no memory for
-- it; what Base64 decoding gives, `none` for characters that are none of it; what lies in the buffer
-- before; and the user name and the password, joined by a colon.
pub record Login : Type 0 where
  pub header : Option (List ℕ)
  pub base64 : List ℕ → Option (List ℕ)
  pub leftover : List ℕ
  pub credentials : List ℕ

abbrev pub basic : List ℕ
basic = b'B' ∷ b'a' ∷ b's' ∷ b'i' ∷ b'c' ∷ b' ' ∷ []

-- The decoder's length: that of the whole text also where it does not fit, and then it writes nothing.
abbrev pub decoded_len : Option (List ℕ) → ℕ
decoded_len none = 0
decoded_len (some bytes) = length bytes

abbrev pub decoded_text : List ℕ → Option (List ℕ) → List ℕ
decoded_text leftover none = []
decoded_text leftover (some bytes) = if leb (length bytes) decoded_size then bytes else leftover

-- The status, and the index in the buffer of 64 bytes at which the final NUL is written, if one is.
unfoldable pub check_basic : Login → List ℕ → AuthStatus × Option ℕ
check_basic l header =
    let bytes = l.base64 (drop 6 header) in
    if not (str_eq (take 6 header) basic)
    then (auth_missing, none)
    else if str_eq (before_nul (decoded_text l.leftover bytes)) (strlcpy decoded_size l.credentials)
    then (auth_ok, some (decoded_len bytes))
    else (auth_wrong, some (decoded_len bytes))

unfoldable pub check_header : Login → Option (List ℕ) → AuthStatus × Option ℕ
check_header l none = (auth_missing, none)
check_header l (some []) = (auth_missing, none)
check_header l (some (c ∷ cs)) = check_basic l (c ∷ cs)

unfoldable pub check_auth : Login → AuthStatus × Option ℕ
check_auth l = check_header l l.header

-- What httpd_query_key_value does with a key: whether it succeeds, and what is then in the buffer, which
-- is empty before and may hold a part of a value that is too long.
pub record Field : Type 0 where
  pub found : Bool
  pub out : List ℕ

-- A buffer after get_form_value.
unfoldable pub get_form_value : Field → List ℕ
get_form_value f = if f.found then preprocess_string f.out else f.out

-- A request: the log-in, whether its body was received, its action and its fields; whether malloc has
-- memory; and whether arg_parse accepts the arguments of a command.
pub data Action : Type 0 where
  no_action reboot_now save_ap save_sta save_static unknown_action : Action

pub record Post : Type 0 where
  pub login : Login
  pub received : Bool
  pub action : Action
  pub field : Key → Field
  pub room : Bool
  pub accepted : Bool

pub data AdminPage : Type 0 where
  denied server_error no_action_given rebooting not_supported failed applied : AdminPage

abbrev pub is_auth_ok : AuthStatus → Bool
is_auth_ok auth_ok = true
is_auth_ok auth_missing = false
is_auth_ok auth_wrong = false

unfoldable pub admin_config_get_handler : Login → Bool
admin_config_get_handler l = is_auth_ok (check_auth l).0

abbrev pub text_or_default : List ℕ → Option (List ℕ) → Bool → Option (List ℕ)
text_or_default d (some v) room = some v
text_or_default d none room = if room then some d else none

-- A value is NULL where there is no memory for the default.
unfoldable pub load_config_string_or_default :
    Nvs → Key → List ℕ → Bool → Store → Option (List ℕ) × Store
load_config_string_or_default nvs k d room s =
    let (err, value, s1) = get_config_param_str nvs k s in (text_or_default d value room, s1)

-- An empty password keeps the one that is stored.
abbrev pub typed_or_stored : List ℕ → Option (List ℕ) → List ℕ
typed_or_stored [] none = []
typed_or_stored [] (some stored) = strlcpy 64 stored
typed_or_stored (c ∷ cs) stored = c ∷ cs

abbrev pub optional : List ℕ → Option (List ℕ)
optional [] = none
optional (c ∷ cs) = some (c ∷ cs)

abbrev pub command_error : EspErr
command_error = other 1

unfoldable pub save_ap_form : Nvs → Post → Store → EspErr × Store
save_ap_form nvs r s =
    let (stored, s1) = load_config_string_or_default nvs Key.ap_passwd [] r.room s in
    let password = typed_or_stored (get_form_value (r.field Key.ap_passwd)) stored in
    if r.accepted
    then set_ap nvs (get_form_value (r.field Key.ap_ssid)) password s1
    else (command_error, s1)

unfoldable pub save_sta_form : Nvs → Post → Store → EspErr × Store
save_sta_form nvs r s =
    let (stored, s1) = load_config_string_or_default nvs Key.passwd [] r.room s in
    let password = typed_or_stored (get_form_value (r.field Key.passwd)) stored in
    if r.accepted
    then set_sta nvs (get_form_value (r.field Key.ssid)) password
        (optional (get_form_value (r.field Key.ent_username)))
        (optional (get_form_value (r.field Key.ent_identity))) s1
    else (command_error, s1)

unfoldable pub save_static_form : Nvs → Post → Store → EspErr × Store
save_static_form nvs r s =
    if r.accepted
    then set_sta_static nvs (get_form_value (r.field Key.static_ip))
        (get_form_value (r.field Key.subnet_mask)) (get_form_value (r.field Key.gateway_addr)) s
    else (command_error, s)

-- The page, whether the restart timer is started, and the settings.
abbrev pub after_command : EspErr × Store → AdminPage × Bool × Store
after_command (err, s) = if is_ok err then (applied, true, s) else (failed, false, s)

unfoldable pub run_action : Nvs → Action → Post → Store → AdminPage × Bool × Store
run_action nvs no_action r s = (no_action_given, false, s)
run_action nvs reboot_now r s = (rebooting, true, s)
run_action nvs save_ap r s = after_command (save_ap_form nvs r s)
run_action nvs save_sta r s = after_command (save_sta_form nvs r s)
run_action nvs save_static r s = after_command (save_static_form nvs r s)
run_action nvs unknown_action r s = (not_supported, false, s)

unfoldable pub admin_config_post_handler : Nvs → Post → Store → AdminPage × Bool × Store
admin_config_post_handler nvs r s =
    if not (is_auth_ok (check_auth r.login).0)
    then (denied, false, s)
    else if not r.received
    then (server_error, false, s)
    else run_action nvs r.action r s

abbrev pub is_escaped : ℕ → Bool
is_escaped c =
    (c == b'\\') || (c == b'\'') || (c == b'"') || (c == b'&') || (c == b'#') || (c == b';')

-- The size of the buffer that html_escape allocates.
unfoldable pub escaped_size : List ℕ → ℕ
escaped_size [] = 1
escaped_size (c ∷ cs) = let rest = escaped_size cs in if is_escaped c then rest + 5 else rest + 1

-- &#nn; with two decimal digits.
unfoldable pub html_escape : List ℕ → List ℕ
html_escape [] = []
html_escape (c ∷ cs) =
    let rest = html_escape cs in
    if is_escaped c then b'&' ∷ b'#' ∷ (b'0' + c / 10) ∷ (b'0' + c % 10) ∷ b';' ∷ rest else c ∷ rest
