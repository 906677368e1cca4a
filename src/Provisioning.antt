-- ===== src/Provisioning.antt =====
-- app-core/src/provisioning.rs, the `submit` handler of src/infra/provisioning_http.rs, and the modes
-- that src/bin/main.rs starts in.
pub mod Modes
mod Examples
use Prim.Native.String.{◌++◌}
use gate_link.Prelude.{
  ℕ, ◌/◌, ◌%◌, zero, suc, ltb, if◌then◌else◌, Bool, true, false, Option, none, some, List, [], ◌∷◌,
  String, get_elem?, Result, ok, err,
}
use gate_link.DeviceConfig.{
  AppConfig, SubmittedForm, FormError, ssid_empty, ssid_too_long, password_too_long, host_empty,
  host_too_long, credentials_too_long, into_config, is_empty, max_ssid_len, max_psk_len,
  max_host_len, max_cred_len,
}
use gate_link.Storage.{Records, save_config}

abbrev pub error_text : FormError → String
error_text ssid_empty = "SSID must not be empty"
error_text ssid_too_long = "SSID is too long"
error_text password_too_long = "Wi-Fi password is too long"
error_text host_empty = "MQTT host must not be empty"
error_text host_too_long = "MQTT host is too long"
error_text credentials_too_long = "MQTT credentials are too long"

digits : List String
digits = "0" ∷ "1" ∷ "2" ∷ "3" ∷ "4" ∷ "5" ∷ "6" ∷ "7" ∷ "8" ∷ "9" ∷ []

or_empty : Option String → String
or_empty none = ""
or_empty (some s) = s

digit : ℕ → String
unfolding digits or_empty
digit n = or_empty (get_elem? digits n)

-- `{n}` of `format!`, for a number below 1000, as the limits are.
decimal : ℕ → String
unfolding digit
decimal n =
    if ltb n 10
    then digit n
    else if ltb n 100
    then digit (n / 10) ++ digit (n % 10)
    else digit (n / 100) ++ digit (n / 10 % 10) ++ digit (n % 10)

page_head : String
page_head =
    "<!doctype html><html><head>" ++ "<meta charset=\"utf-8\">"
    ++ "<meta name=\"viewport\" content=\"width=device-width, initial-scale=1\">"
    ++ "<title>mqtt_gate setup</title></head>" ++ "<body>" ++ "<h1>mqtt_gate setup</h1>"

error_line : Option String → String
error_line none = ""
error_line (some error) = "<p style=\"color:red\">" ++ error ++ "</p>"

form : String
unfolding decimal
form =
    "<form method=\"post\" action=\"/\">"
    ++ "<label>Wi-Fi SSID<br><input name=\"ssid\" required maxlength=\""
    ++ decimal max_ssid_len
    ++ "\"></label><br>"
    ++ "<label>Wi-Fi password<br><input name=\"wifi_password\" type=\"password\" maxlength=\""
    ++ decimal max_psk_len
    ++ "\"></label><br><label>MQTT host<br><input name=\"mqtt_host\" required maxlength=\""
    ++ decimal max_host_len
    ++ "\"></label><br>"
    ++ "<label>MQTT port<br><input name=\"mqtt_port\" type=\"number\" value=\"1883\" required></label><br>"
    ++ "<label>MQTT username (optional)<br><input name=\"mqtt_username\" maxlength=\""
    ++ decimal max_cred_len
    ++ "\"></label><br>"
    ++ "<label>MQTT password (optional)<br><input name=\"mqtt_password\" type=\"password\" maxlength=\""
    ++ decimal max_cred_len
    ++ "\"></label><br><button type=\"submit\">Save &amp; reboot</button></form></body></html>"

unfoldable pub form_page : Option String → String
unfolding page_head error_line form
form_page error = page_head ++ error_line error ++ form

abbrev pub saved_page : String
saved_page = "<!doctype html><html><body><p>Saved. Rebooting into station mode...</p></body></html>"

answer : Result FormError AppConfig → Option AppConfig × String
unfolding form_page
answer (ok cfg) = (some cfg, saved_page)
answer (err e) = (none, form_page (some (error_text e)))

-- What is signalled on `CONFIG_SUBMITTED`, and the page.
unfoldable pub submit : SubmittedForm → Option AppConfig × String
unfolding answer
submit f = answer (into_config f)

-- `run_station_mode` or `run_provisioning_mode`
pub data Mode : Type 0 where
  station : AppConfig → Mode
  provisioning : Mode

unfoldable pub mode : Option AppConfig → Mode
mode (some cfg) = if is_empty cfg.wifi_ssid then provisioning else station cfg
mode none = provisioning

-- The end of `run_provisioning_mode`: the submitted configuration is saved, and the device resets,
-- also if that failed.
unfoldable pub provision : {F E : Type 0} → Records F E → AppConfig → F → F
provision records cfg f = (save_config records cfg f).0
