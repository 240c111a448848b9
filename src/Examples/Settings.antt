-- ===== src/Examples/Settings.antt =====
-- The theorems on cmd_router.c and on the start of esp32_nat_router.c, on an NVS that works.
use esp32_wifi_ap_cp.Base.{◌≡◌, refl, true, false, none, some, [], ◌∷◌, arith, inl, inr}
use esp32_wifi_ap_cp.Base.Errors.{esp_ok, is_ok}
use esp32_wifi_ap_cp.Config.Text.{preprocess_string}
use esp32_wifi_ap_cp.Config.Text.Decoding.{done, as_is, blank, quoted, preprocess_undoes_encoding}
use esp32_wifi_ap_cp.Config.Store.{Nvs, Store, reboot, put_all, set_and_commit, set_sta}
use esp32_wifi_ap_cp.Config.Boot.{load_config, wifi_init}
use esp32_wifi_ap_cp.Config.Boot.Settings.{IsReadable, username_alone_logs_in_nowhere}

abbrev pub nvs : Nvs
nvs = record {
  opens = esp_ok;
  get = λ k. esp_ok;
  set = λ k. esp_ok;
  commit = esp_ok;
  flushed = λ k. false;
}

abbrev pub fresh : Store
fresh = record { current = λ k. none; committed = λ k. none; handles = 0 }

pub nvs-IsReadable : IsReadable nvs
nvs-IsReadable = record { opens = refl; gets = λ k. refl }

-- "a +" is encoded as "a+%2b".
preprocess_undoes_encoding_example :
    preprocess_string (b'a' ∷ b'+' ∷ b'%' ∷ b'2' ∷ b'b' ∷ []) ≡ b'a' ∷ b' ' ∷ b'+' ∷ []
preprocess_undoes_encoding_example = preprocess_undoes_encoding (
    as_is b'a' (λ h. omega arith) (λ h. omega arith) (λ h. omega arith)
      (blank (
        quoted b'+' b'2' b'b' 2 11 refl (λ h. omega arith) (inl (omega arith, refl))
          (inr (inr (omega arith, omega arith, refl))) done)))

stored : is_ok (set_sta nvs (b'n' ∷ []) (b'p' ∷ []) (some (b'u' ∷ [])) none fresh).0 ≡ true
unfolding set_sta set_and_commit put_all
stored = refl

username_alone_logs_in_nowhere_example :
    let w = wifi_init (
      load_config nvs
        (reboot nvs (set_sta nvs (b'n' ∷ []) (b'p' ∷ []) (some (b'u' ∷ [])) none fresh).1)) in
    (w.sta_password ≡ []) × (w.enterprise ≡ none)
username_alone_logs_in_nowhere_example =
    username_alone_logs_in_nowhere nvs nvs (b'n' ∷ []) (b'p' ∷ []) (b'u' ∷ []) fresh stored
      nvs-IsReadable refl
