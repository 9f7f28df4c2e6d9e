-- ===== src/App/Ready.antt =====
-- What holds of every start of cmd/tinypanel-hub.
use tinypanel_hub.Store.State.{Files}
use tinypanel_hub.Store.File.{read_file, load, new_state_data}
use tinypanel_hub.Store.TelemetryLog.{load_recent}
use tinypanel_hub.Store.Open.{next_telemetry_id}
use tinypanel_hub.Domain.{Telemetry, is_zero_time}
use tinypanel_hub.Config.{Config, load_config}
use tinypanel_hub.Config.Defaults.{IsComplete}
use tinypanel_hub.Weather.Client.Checks.{IsClient}
use tinypanel_hub.App.{Libraries, Source, qweather_options, App, Machine, config_path}
use tinypanel_hub.Prelude.{
  String, Option, none, some, ℤ, pos, eq_string, eq_int, eq_nat, trim_space, ◌≡◌, ◌≤ℤ◌, ◌⊎◌, List,
  true,
}
use tinypanel_hub.Store.State.{Error, ok, FileStore, Env}

-- The provider that the configuration names, which is "qweather": its client has the checked options,
-- its timeout and the lifetime of its forecasts are those of the configuration, where a lifetime that
-- is not positive means ten minutes, and it keeps no forecast yet.
pub record IsProvider (lib : Libraries) (cfg : Config) (source : Source) : Type 0 where
  pub named : lib.to_lower (trim_space cfg.weather.provider) ≡ "qweather"
  pub client : IsClient (qweather_options cfg.weather) source.client
  pub timeout : lib.parse_duration cfg.weather.timeout ≡ ok source.timeout
  pub ttl : ℤ
  pub parsed : lib.parse_duration cfg.weather.cache_ttl ≡ ok ttl
  pub lasting :
      ((pos 1 ≤ℤ ttl) × (source.cache.ttl ≡ ttl))
      ⊎ ((ttl ≤ℤ pos 0) × (source.cache.ttl ≡ pos 600_000_000_000))
  pub empty : is_zero_time source.cache.expires_at ≡ true

-- There is no provider exactly where the configuration names none.
abbrev pub IsSource : Libraries → Config → Option Source → Type 0
IsSource lib cfg none =
    let name = lib.to_lower (trim_space cfg.weather.provider) in
    (name ≡ "") ⊎ (name ≡ "manual") ⊎ (name ≡ "none")
IsSource lib cfg (some source) = IsProvider lib cfg source

-- The store holds the data of the file at the one path of the configuration, and its next record
-- comes after those of the log at the other. It stands on the files.
pub record IsStoreOf (env : Env) (fails : Option Error) (cfg : Config) (files : Files)
    (s : FileStore) : Type 0 where
  pub state_path : s.state_path ≡ cfg.storage.data_file
  pub telemetry_path : s.telemetry_path ≡ cfg.storage.telemetry_file
  pub around : s.files ≡ files
  pub read :
      load env.codec env.now (read_file fails files cfg.storage.data_file) (new_state_data env.now)
      ≡ ok s.contents
  pub items : List Telemetry
  pub logged :
      load_recent env.codec env.scan_fails files cfg.storage.telemetry_file (pos 500) ≡ ok items
  pub counted : s.next_telemetry_id ≡ next_telemetry_id items

-- What a start serves, with the configuration that it loaded.
pub record IsReady (m : Machine) (files : Files) (addr : String) (app : App) : Type 0 where
  pub cfg : Config
  pub loaded :
      load_config m.lib.config_json (read_file m.config_fails files) (config_path m) ≡ ok cfg
  pub complete : IsComplete cfg
  pub address : addr ≡ cfg.server.addr
  pub token : app.api_token ≡ cfg.server.api_token
  pub store : IsStoreOf m.env m.state_fails cfg files app.store
  pub source : IsSource m.lib cfg app.source
