-- ===== src/App.antt =====
-- internal/app/app.go, and what cmd/tinypanel-hub/main.go does before it listens.
pub mod Ready
pub mod Untouched
use Prim.Native.String
use tinypanel_hub.Store.State.{Files, put_file, ◌>>=◌}
use tinypanel_hub.Store.File.{read_file}
use tinypanel_hub.Store.Open.{open_files}
use tinypanel_hub.Httpapi.Request.{Decoder}
use tinypanel_hub.Config.{Config, ConfigWeather, path_from_env, load_config}
use tinypanel_hub.Weather.Client.{QweatherClient, QweatherOptions, Net, new_qweather_client}
use tinypanel_hub.Weather.Cache.{Cache, new_cache}
use tinypanel_hub.Prelude.{
  ◌+◌, String, ◌++◌, Option, none, some, ℤ, ◌||◌, if◌then◌else◌, ◌==◌, ◌!=◌, eq_string, eq_int,
  eq_nat, trim_space,
}
use tinypanel_hub.Store.State.{Error, external, Result, ok, err, FileStore, Env}

-- What the start takes from the libraries: `strings.ToLower`, `time.ParseDuration` in the unit of
-- the times, the decoder of the configuration and what the weather client takes.
pub record Libraries : Type 0 where
  pub to_lower : String → String
  pub parse_duration : String → Result ℤ
  pub config_json : Config → Decoder Config
  pub net : Net

-- A weather provider: the client, the timeout of its HTTP client, and the cache before it.
pub record Source : Type 0 where
  pub client : QweatherClient
  pub timeout : ℤ
  pub cache : Cache

unfoldable pub qweather_options : ConfigWeather → QweatherOptions
qweather_options c = record {
  api_host = c.api_host;
  api_key = c.api_key;
  bearer_token = c.bearer_token;
  location = c.location;
  lang = c.lang;
  unit = c.unit;
  hours = c.hours;
  days = c.days;
}

-- The end of `NewWeatherProvider`
unfoldable pub new_source : Libraries → ConfigWeather → Result Source
unfolding qweather_options
new_source lib c = do
  timeout ← lib.parse_duration c.timeout
  ttl ← lib.parse_duration c.cache_ttl
  client ← new_qweather_client lib.net (qweather_options c)
  ok (record { client = client; timeout = timeout; cache = new_cache ttl })

unfoldable pub new_weather_provider : Libraries → Config → Result (Option Source)
unfolding new_source
new_weather_provider lib cfg =
    let provider = lib.to_lower (trim_space cfg.weather.provider) in
    if provider == "" || provider == "manual" || provider == "none"
    then ok none
    else if provider != "qweather"
    then err (external (String.◌++◌ "unsupported weather provider " cfg.weather.provider))
    else new_source lib cfg.weather >>= λ source. ok (some source)

-- The handler that `NewHandler` returns: its store, its token and its weather provider.
pub record App : Type 0 where
  pub store : FileStore
  pub api_token : String
  pub source : Option Source

unfoldable pub new_handler : Libraries → Env → Option Error → Config → Files → Result App
unfolding open_files new_weather_provider
new_handler lib env read_fails cfg files = do
  s ← open_files env read_fails cfg.storage.data_file cfg.storage.telemetry_file files
  source ← new_weather_provider lib cfg
  ok (record { store = s; api_token = cfg.server.api_token; source = source })

-- The outcomes of the system calls of `ensureEtc`. A write that fails leaves what it says.
pub record EtcFaults : Type 0 where
  pub mkdir_fails : Option Error
  pub stat_fails : Option Error
  pub write_fails : Option (Error × Option String)

abbrev pub example_path : String
example_path = "etc/config.example.json"

unfoldable pub write_example : EtcFaults → String → Files → Files × Option Error
write_example o b files = elim o.write_fails [
  | some (e, left) ↦ (put_file example_path left files, some e)
  | none ↦ (put_file example_path (some b) files, none)
]

-- `ensureEtc`; `embedded` is what reading the file of the binary gives.
unfoldable pub ensure_etc : EtcFaults → Result String → Files → Files × Option Error
unfolding write_example
ensure_etc o embedded files = elim o.mkdir_fails [
  | some e ↦ (files, some e)
  | none ↦ elim o.stat_fails [
    | some e ↦ (files, some e)
    | none ↦ elim (files example_path) [
      | some b ↦ (files, none)
      | none ↦ elim embedded [ err e ↦ (files, some e) | ok b ↦ write_example o b files ]
    ]
  ]
]

-- What a start takes from outside. `flag` is the flag -config, none where it is not given, and
-- `variable` is TINYPANEL_CONFIG.
pub record Machine : Type 0 where
  pub lib : Libraries
  pub env : Env
  pub etc_faults : EtcFaults
  pub embedded : Result String
  pub flag : Option String
  pub variable : String
  pub config_fails : Option Error
  pub state_fails : Option Error

abbrev pub config_path : Machine → String
config_path m = elim m.flag [ some path ↦ path | none ↦ path_from_env m.variable ]

-- `main` up to the server: the files it leaves, and the address and the handler to serve, or the
-- error it exits with.
unfoldable pub start : Machine → Files → Files × Result (String × App)
unfolding ensure_etc load_config new_handler
start m files =
    let (files', e) = ensure_etc m.etc_faults m.embedded files in
    elim e [
      | some x ↦ (files', err x)
      | none ↦ (
        files',
        load_config m.lib.config_json (read_file m.config_fails files') (config_path m) >>= λ cfg.
            new_handler m.lib m.env m.state_fails cfg files' >>= λ app. ok (cfg.server.addr, app),
      )
    ]
