-- ===== src/DeviceConfig/Acceptance.antt =====
-- app-core/src/config.rs: which forms are accepted, and as what.
use mathlib.Core.Path.{subst}
use Prim.Native.String.{len}
use text.Mathlib.TextEquality.{eq_iff}
use gate_link.Prelude.{
  ◌≤◌, ◌≡◌, ◌↔◌, refl, false, Option, none, some, String, ok, arith, inl, inr, Bool-cases, ap, sym,
  ◌∙◌,
}
use gate_link.DeviceConfig.{
  AppConfig, SubmittedForm, into_config, non_empty, is_empty, max_ssid_len, max_psk_len,
  max_host_len, max_cred_len,
}

abbrev pub unwrap_or_empty : Option String → String
unwrap_or_empty none = ""
unwrap_or_empty (some s) = s

-- The form that a configuration comes from.
abbrev pub form_of : AppConfig → SubmittedForm
form_of c = record {
  ssid = c.wifi_ssid;
  wifi_password = c.wifi_password;
  mqtt_host = c.mqtt_host;
  mqtt_port = c.mqtt_port;
  mqtt_username = unwrap_or_empty c.mqtt_username;
  mqtt_password = unwrap_or_empty c.mqtt_password;
}

-- A credential is absent, or a text that is not empty.
abbrev pub IsCredential : Option String → Type 0
IsCredential none = Unit
IsCredential (some s) = (is_empty s ≡ false) × (len s ≤ max_cred_len)

pub record IsUsable (c : AppConfig) : Type 0 where
  pub ssid_given : is_empty c.wifi_ssid ≡ false
  pub ssid_fits : len c.wifi_ssid ≤ max_ssid_len
  pub password_fits : len c.wifi_password ≤ max_psk_len
  pub host_given : is_empty c.mqtt_host ≡ false
  pub host_fits : len c.mqtt_host ≤ max_host_len
  pub username : IsCredential c.mqtt_username
  pub password : IsCredential c.mqtt_password

non_empty-IsCredential : (s : String) → len s ≤ max_cred_len → IsCredential (non_empty s)
unfolding non_empty
non_empty-IsCredential s h = elim (Bool-cases (is_empty s)) [
  | inl e ↦ rw e tt
  | inr n ↦ rw n (n, h)
]

unwrap-non_empty : (s : String) → unwrap_or_empty (non_empty s) ≡ s
unfolding non_empty
unwrap-non_empty s = ground (arith, eq_iff s "")

non_empty-unwrap : (o : Option String) → IsCredential o → non_empty (unwrap_or_empty o) ≡ o
unfolding non_empty
non_empty-unwrap none h = refl
non_empty-unwrap (some s) h = ground arith

credential-fits : (o : Option String) → IsCredential o → len (unwrap_or_empty o) ≤ max_cred_len
credential-fits none h = omega arith
credential-fits (some s) h = h.1

abbrev config_of : SubmittedForm → AppConfig
config_of f = record {
  wifi_ssid = f.ssid;
  wifi_password = f.wifi_password;
  mqtt_host = f.mqtt_host;
  mqtt_port = f.mqtt_port;
  mqtt_username = non_empty f.mqtt_username;
  mqtt_password = non_empty f.mqtt_password;
}

abbrev Fits : SubmittedForm → Type 0
Fits f =
    (is_empty f.ssid ≡ false)
    × (len f.ssid ≤ max_ssid_len)
    × (len f.wifi_password ≤ max_psk_len)
    × (is_empty f.mqtt_host ≡ false)
    × (len f.mqtt_host ≤ max_host_len)
    × (len f.mqtt_username ≤ max_cred_len)
    × (len f.mqtt_password ≤ max_cred_len)

into_config-Fits :
    (f : SubmittedForm) (c : AppConfig) → into_config f ≡ ok c → Fits f × (config_of f ≡ c)
unfolding into_config
into_config-Fits f c h = ground arith

Fits-into_config : (f : SubmittedForm) → Fits f → into_config f ≡ ok (config_of f)
unfolding into_config
Fits-into_config f h = ground arith

config_of-IsUsable : (f : SubmittedForm) → Fits f → IsUsable (config_of f)
config_of-IsUsable f (s, s', p, h, h', u, w) = record {
  ssid_given = s;
  ssid_fits = s';
  password_fits = p;
  host_given = h;
  host_fits = h';
  username = non_empty-IsCredential f.mqtt_username u;
  password = non_empty-IsCredential f.mqtt_password w;
}

form_of-config_of : (f : SubmittedForm) → form_of (config_of f) ≡ f
form_of-config_of f = cc (unwrap-non_empty f.mqtt_username, unwrap-non_empty f.mqtt_password)

form_of-Fits : (c : AppConfig) → IsUsable c → Fits (form_of c)
form_of-Fits c u = (
  u.ssid_given,
  u.ssid_fits,
  u.password_fits,
  u.host_given,
  u.host_fits,
  credential-fits c.mqtt_username u.username,
  credential-fits c.mqtt_password u.password,
)

config_of-form_of : (c : AppConfig) → IsUsable c → config_of (form_of c) ≡ c
config_of-form_of c u =
    cc (non_empty-unwrap c.mqtt_username u.username, non_empty-unwrap c.mqtt_password u.password)

-- A form is accepted as a configuration exactly when that configuration is within the limits, with
-- a network name and a host, and the form is the one it stands for, a blank credential for an
-- absent one. So nothing of an accepted form is lost, and every usable configuration can be set.
pub into_config-ok :
    (f : SubmittedForm) (c : AppConfig) → (into_config f ≡ ok c) ↔ (IsUsable c × (form_of c ≡ f))
into_config-ok f c = (
  λ h.
      let (fits, same) = into_config-Fits f c h in
      (
        subst IsUsable same (config_of-IsUsable f fits),
        ap form_of (sym same) ∙ form_of-config_of f,
      ),
  λ h.
      subst (λ x. into_config x ≡ ok c) h.1
        (Fits-into_config (form_of c) (form_of-Fits c h.0) ∙ ap ok (config_of-form_of c h.0)),
)
