-- ===== src/DeviceConfig.antt =====
-- app-core/src/config.rs: the device's configuration, from the submitted form.
-- `String::len` counts bytes. The error texts are the constructors of `FormError`.
pub mod Acceptance
mod Examples
use Prim.Native.String.{len}
use text.Mathlib.Text.{◌==◌ as str_eq}
use gate_link.Prelude.{
  ℕ, Bool, true, false, not, ◌||◌, ltb, if◌then◌else◌, Option, none, some, String, Result, ok, err,
}

abbrev pub max_ssid_len : ℕ
max_ssid_len = 32

abbrev pub max_psk_len : ℕ
max_psk_len = 64

abbrev pub max_host_len : ℕ
max_host_len = 128

abbrev pub max_cred_len : ℕ
max_cred_len = 64

pub record AppConfig : Type 0 where
  pub wifi_ssid : String
  pub wifi_password : String
  pub mqtt_host : String
  pub mqtt_port : ℕ  -- u16
  pub mqtt_username : Option String
  pub mqtt_password : Option String

pub record SubmittedForm : Type 0 where
  pub ssid : String
  pub wifi_password : String
  pub mqtt_host : String
  pub mqtt_port : ℕ  -- u16
  pub mqtt_username : String
  pub mqtt_password : String

pub data FormError : Type 0 where
  ssid_empty ssid_too_long password_too_long host_empty host_too_long credentials_too_long :
      FormError

abbrev pub is_empty : String → Bool
is_empty s = str_eq s ""

unfoldable pub non_empty : String → Option String
non_empty s = if is_empty s then none else some s

unfoldable pub into_config : SubmittedForm → Result FormError AppConfig
unfolding non_empty
into_config f =
    if is_empty f.ssid
    then err ssid_empty
    else if ltb max_ssid_len (len f.ssid)
    then err ssid_too_long
    else if ltb max_psk_len (len f.wifi_password)
    then err password_too_long
    else if is_empty f.mqtt_host
    then err host_empty
    else if ltb max_host_len (len f.mqtt_host)
    then err host_too_long
    else if ltb max_cred_len (len f.mqtt_username) || ltb max_cred_len (len f.mqtt_password)
    then err credentials_too_long
    else ok (record {
      wifi_ssid = f.ssid;
      wifi_password = f.wifi_password;
      mqtt_host = f.mqtt_host;
      mqtt_port = f.mqtt_port;
      mqtt_username = non_empty f.mqtt_username;
      mqtt_password = non_empty f.mqtt_password;
    })
