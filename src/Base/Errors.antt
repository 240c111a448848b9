-- ===== src/Base/Errors.antt =====
-- esp_err_t, as far as the drivers' code tells the codes apart.
use mathlib.Core.Bool.{Bool, true, false}
use Prim.Native.Nat.{ℕ}

pub data EspErr : Type 0 where
  esp_ok esp_fail esp_err_no_mem esp_err_invalid_arg esp_err_invalid_state : EspErr
  esp_err_not_supported esp_err_timeout : EspErr
  other : ℕ → EspErr

abbrev pub is_ok : EspErr → Bool
is_ok esp_ok = true
is_ok _ = false

abbrev pub is_invalid_state : EspErr → Bool
is_invalid_state esp_err_invalid_state = true
is_invalid_state _ = false
