-- ===== src/Config.antt =====
-- internal/config/config.go: the configuration file and its defaults.
pub mod Defaults
use tinypanel_hub.Store.File.{Read, not_exist, failed, text}
use tinypanel_hub.Httpapi.Request.{Decoder}
use tinypanel_hub.Prelude.{String, if◌then◌else◌, ◌==◌, ◌!=◌, eq_string, eq_int, eq_nat, trim_space}
use tinypanel_hub.Store.State.{external, Result, ok, err}

abbrev pub default_path : String
default_path = "etc/config.json"

pub record ConfigServer : Type 0 where
  pub addr : String
  pub api_token : String

pub record ConfigStorage : Type 0 where
  pub data_file : String
  pub telemetry_file : String

pub record ConfigWeather : Type 0 where
  pub provider : String
  pub api_host : String
  pub api_key : String
  pub bearer_token : String
  pub location : String
  pub lang : String
  pub unit : String
  pub hours : String
  pub days : String
  pub cache_ttl : String
  pub timeout : String

pub record Config : Type 0 where
  pub server : ConfigServer
  pub storage : ConfigStorage
  pub weather : ConfigWeather

-- `Default`
unfoldable pub default_config : Config
default_config = record {
  server = record { addr = ":8080"; api_token = "" };
  storage = record { data_file = "data/tinypanel.json"; telemetry_file = "data/telemetry.jsonl" };
  weather = record {
    provider = "manual";
    api_host = "";
    api_key = "";
    bearer_token = "";
    location = "";
    lang = "zh";
    unit = "m";
    hours = "24h";
    days = "3d";
    cache_ttl = "10m";
    timeout = "5s";
  };
}

-- `PathFromEnv`; `env` is the variable TINYPANEL_CONFIG, empty where it is not set.
unfoldable pub path_from_env : String → String
path_from_env env = if env != "" then env else default_path

-- `if field == "" { field = def }`
abbrev pub or_default : String → String → String
or_default def field = if field == "" then def else field

unfoldable pub fill_defaults : Config → Config
unfolding default_config
fill_defaults c =
    let def = default_config in
    record {
      server = record (c.server) { addr = or_default def.server.addr c.server.addr };
      storage = record {
        data_file = or_default def.storage.data_file c.storage.data_file;
        telemetry_file = or_default def.storage.telemetry_file c.storage.telemetry_file;
      };
      weather = record (c.weather) {
        provider = or_default def.weather.provider c.weather.provider;
        lang = or_default def.weather.lang c.weather.lang;
        unit = or_default def.weather.unit c.weather.unit;
        hours = or_default def.weather.hours c.weather.hours;
        days = or_default def.weather.days c.weather.days;
        cache_ttl = or_default def.weather.cache_ttl c.weather.cache_ttl;
        timeout = or_default def.weather.timeout c.weather.timeout;
      };
    }

-- `Load` after the file was read. The decoder unmarshals into a configuration, without unknown
-- fields; `Load` also returns what it has so far along with an error, which its caller ignores.
unfoldable pub parse_config : (Config → Decoder Config) → String → Result Config
unfolding default_config fill_defaults
parse_config dec b =
    if trim_space b == "" then ok default_config else elim ((dec default_config).first b) [
      | err e ↦ err e
      | ok (cfg, rest) ↦
          if (dec default_config).at_end rest
          then ok (fill_defaults cfg)
          else err (external "config file must contain a single JSON object")
    ]

-- `Load`; `read` is `os.ReadFile`.
unfoldable pub load_config : (Config → Decoder Config) → (String → Read) → String → Result Config
unfolding default_config parse_config
load_config dec read path = elim (read (if path == "" then default_path else path)) [
  | not_exist ↦ ok default_config
  | failed e ↦ err e
  | text b ↦ parse_config dec b
]
