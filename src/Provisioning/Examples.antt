-- ===== src/Provisioning/Examples.antt =====
-- Forms that are submitted.
use gate_link.Prelude.{◌≡◌, refl, none, some}
use gate_link.Time.{Ticks, micros}
use gate_link.DeviceConfig.{AppConfig, SubmittedForm, into_config}
use gate_link.Provisioning.{submit, form_page, decimal}

instance abbrev clock : Ticks
clock = micros

limit_shown : decimal 128 ≡ "128"
unfolding decimal
limit_shown = refl

abbrev blank_form : SubmittedForm
blank_form = record {
  ssid = "";
  wifi_password = "";
  mqtt_host = "";
  mqtt_port = 1883;
  mqtt_username = "";
  mqtt_password = "";
}

blank_refused : submit blank_form ≡ (none, form_page (some "SSID must not be empty"))
unfolding submit into_config
blank_refused = refl

abbrev cottage_form : SubmittedForm
cottage_form = record {
  ssid = "cottage";
  wifi_password = "secret";
  mqtt_host = "broker.lan";
  mqtt_port = 1883;
  mqtt_username = "gate";
  mqtt_password = "";
}

abbrev cottage : AppConfig
cottage = record {
  wifi_ssid = "cottage";
  wifi_password = "secret";
  mqtt_host = "broker.lan";
  mqtt_port = 1883;
  mqtt_username = some "gate";
  mqtt_password = none;
}

cottage_accepted : (submit cottage_form).0 ≡ some cottage
unfolding submit into_config
cottage_accepted = refl
