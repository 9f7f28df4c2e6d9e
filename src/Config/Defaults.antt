-- ===== src/Config/Defaults.antt =====
-- What every configuration that internal/config loads has.
use tinypanel_hub.Store.File.{Read, not_exist, failed, text}
use tinypanel_hub.Config.{
  Config, default_config, or_default, fill_defaults, parse_config, load_config,
}
use tinypanel_hub.Httpapi.Request.{Decoder}
use tinypanel_hub.Prelude.{
  String, if◌then◌else◌, ◌==◌, eq_string, eq_int, eq_nat, trim_space, ◌≡◌, refl, Bool-cases,
  ne_of_==, ◌≢◌, inl, inr,
}
use tinypanel_hub.Store.State.{ok_eq, ok_err, ok, Result-cases}

-- Every field that has a default is set.
pub record IsComplete (c : Config) : Type 0 where
  pub addr : c.server.addr ≢ ""
  pub data_file : c.storage.data_file ≢ ""
  pub telemetry_file : c.storage.telemetry_file ≢ ""
  pub provider : c.weather.provider ≢ ""
  pub lang : c.weather.lang ≢ ""
  pub unit : c.weather.unit ≢ ""
  pub hours : c.weather.hours ≢ ""
  pub days : c.weather.days ≢ ""
  pub cache_ttl : c.weather.cache_ttl ≢ ""
  pub timeout : c.weather.timeout ≢ ""

or_default_ne : (def field : String) → def ≢ "" → or_default def field ≢ ""
or_default_ne def field h = elim (Bool-cases (field == "")) [
  | inl e ↦ rw e h
  | inr e ↦ rw e (ne_of_== field "" e)
]

default_config-IsComplete : IsComplete default_config
unfolding default_config
default_config-IsComplete = record {
  addr = ne_of_== ":8080" "" refl;
  data_file = ne_of_== "data/tinypanel.json" "" refl;
  telemetry_file = ne_of_== "data/telemetry.jsonl" "" refl;
  provider = ne_of_== "manual" "" refl;
  lang = ne_of_== "zh" "" refl;
  unit = ne_of_== "m" "" refl;
  hours = ne_of_== "24h" "" refl;
  days = ne_of_== "3d" "" refl;
  cache_ttl = ne_of_== "10m" "" refl;
  timeout = ne_of_== "5s" "" refl;
}

fill_defaults-IsComplete : (c : Config) → IsComplete (fill_defaults c)
unfolding fill_defaults
fill_defaults-IsComplete c =
    let d = default_config-IsComplete in
    record {
      addr = or_default_ne default_config.server.addr c.server.addr d.addr;
      data_file = or_default_ne default_config.storage.data_file c.storage.data_file d.data_file;
      telemetry_file =
          or_default_ne default_config.storage.telemetry_file c.storage.telemetry_file
            d.telemetry_file;
      provider = or_default_ne default_config.weather.provider c.weather.provider d.provider;
      lang = or_default_ne default_config.weather.lang c.weather.lang d.lang;
      unit = or_default_ne default_config.weather.unit c.weather.unit d.unit;
      hours = or_default_ne default_config.weather.hours c.weather.hours d.hours;
      days = or_default_ne default_config.weather.days c.weather.days d.days;
      cache_ttl = or_default_ne default_config.weather.cache_ttl c.weather.cache_ttl d.cache_ttl;
      timeout = or_default_ne default_config.weather.timeout c.weather.timeout d.timeout;
    }

parse_config-IsComplete :
    (dec : Config → Decoder Config) (b : String) (c : Config)
    → parse_config dec b ≡ ok c
    → IsComplete c
unfolding parse_config
parse_config-IsComplete dec b c h = elim (Bool-cases (trim_space b == "")) [
  | inl e ↦ rw⁻¹ (ok_eq (rw (e, parse_config) at h)) default_config-IsComplete
  | inr e ↦
      let h1 = rw (e, parse_config) at h in
      elim (Result-cases ((dec default_config).first b)) [
        | inr (x, f) ↦ absurd (ok_err (rw f at h1))
        | inl ((cfg, rest), f) ↦ elim (Bool-cases ((dec default_config).at_end rest)) [
          | inl g ↦ rw⁻¹ (ok_eq (rw g at rw f at h1)) (fill_defaults-IsComplete cfg)
          | inr g ↦ absurd (ok_err (rw g at rw f at h1))
        ]
      ]
]

-- Whatever the file holds, and whether there is one, a configuration that `Load` gives without an
-- error has a value in every field that has a default: the address, both store paths, and the
-- provider, language, unit, ranges and durations of the weather.
pub load_config-IsComplete :
    (dec : Config → Decoder Config) (read : String → Read) (path : String) (c : Config)
    → load_config dec read path ≡ ok c
    → IsComplete c
unfolding load_config
load_config-IsComplete dec read path c h =
    by_read (read (if path == "" then "etc/config.json" else path)) refl
  where
    by_read : (x : Read) → read (if path == "" then "etc/config.json" else path) ≡ x → IsComplete c
    by_read not_exist e = rw⁻¹ (ok_eq (rw (e, load_config) at h)) default_config-IsComplete
    by_read (failed x) e = absurd (ok_err (rw (e, load_config) at h))
    by_read (text b) e = parse_config-IsComplete dec b c (rw (e, load_config) at h)
