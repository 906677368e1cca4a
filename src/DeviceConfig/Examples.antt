-- ===== src/DeviceConfig/Examples.antt =====
-- A form with a blank user name, and the theorem about it.
use gate_link.Prelude.{◌≡◌, ◌↔◌, none, some, ok}
use gate_link.DeviceConfig.{AppConfig, SubmittedForm, into_config}
use gate_link.DeviceConfig.Acceptance.{IsUsable, form_of, into_config-ok}

abbrev form : SubmittedForm
form = record {
  ssid = "home";
  wifi_password = "secret";
  mqtt_host = "10.0.0.2";
  mqtt_port = 1883;
  mqtt_username = "";
  mqtt_password = "pw";
}

abbrev config : AppConfig
config = record {
  wifi_ssid = "home";
  wifi_password = "secret";
  mqtt_host = "10.0.0.2";
  mqtt_port = 1883;
  mqtt_username = none;
  mqtt_password = some "pw";
}

into_config-ok_example :
    (into_config form ≡ ok config) ↔ (IsUsable config × (form_of config ≡ form))
into_config-ok_example = into_config-ok form config
