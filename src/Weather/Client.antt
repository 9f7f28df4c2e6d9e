-- ===== src/Weather/Client.antt =====
-- internal/weather/qweather.go: the client of the weather service.
pub mod Checks
use Prim.Native.String
use tinypanel_hub.Prelude.{contains, trim_right_slashes}
use tinypanel_hub.Store.State.{◌>>=◌}
use tinypanel_hub.Domain.{Float64}
use tinypanel_hub.Prelude.{
  ◌+◌, String, List, [], ◌∷◌, ◌++◌, Option, ℤ, Bool, not, ◌&&◌, if◌then◌else◌, ◌==◌, ◌!=◌,
  eq_string, eq_int, eq_nat, any, trim_space,
}
use tinypanel_hub.Domain.{Time}
use tinypanel_hub.Store.State.{Error, external, Result, ok, err}

pub record QweatherClient : Type 0 where
  pub base_url : String
  pub api_key : String
  pub bearer_token : String
  pub location : String
  pub lang : String
  pub unit : String
  pub hours : String
  pub days : String

pub record QweatherOptions : Type 0 where
  pub api_host : String
  pub api_key : String
  pub bearer_token : String
  pub location : String
  pub lang : String
  pub unit : String
  pub hours : String
  pub days : String

pub record NowPayload : Type 0 where
  pub obs_time : String
  pub temp : String
  pub icon : String
  pub text : String
  pub humidity : String

pub record NowResponse : Type 0 where
  pub code : String
  pub update_time : String
  pub now : NowPayload

pub record HourlyPayload : Type 0 where
  pub fx_time : String
  pub temp : String
  pub icon : String
  pub text : String
  pub wind_dir : String
  pub wind_scale : String
  pub wind_speed : String
  pub humidity : String
  pub pop : String
  pub precip : String

pub record HourlyResponse : Type 0 where
  pub code : String
  pub hourly : List HourlyPayload

pub record DailyPayload : Type 0 where
  pub fx_date : String
  pub sunrise : String
  pub sunset : String
  pub temp_max : String
  pub temp_min : String
  pub icon_day : String
  pub text_day : String
  pub icon_night : String
  pub text_night : String
  pub wind_dir_day : String
  pub wind_scale_day : String
  pub wind_speed_day : String
  pub wind_dir_night : String
  pub wind_scale_night : String
  pub wind_speed_night : String
  pub humidity : String
  pub precip : String

pub record DailyResponse : Type 0 where
  pub code : String
  pub daily : List DailyPayload

-- The interface `qweatherPayload`, and how encoding/json reads its implementations.
pub record QweatherPayload (A : Type 0) : Type 0 where
  pub response_code : A → String
  pub decode : String → Result A

-- A `url.URL`, of which the client reads and writes these parts.
pub record Url : Type 0 where
  pub scheme : String
  pub host : String
  pub path : String
  pub raw_query : String
  pub fragment : String

pub record HttpRequest : Type 0 where
  pub url : String
  pub header : List (String × String)

pub record HttpResponse : Type 0 where
  pub status_code : ℤ
  pub body : Result String

-- What the client takes from the libraries and from the network. `send` is `httpClient.Do`; the
-- body is what reading it to its end gives, `quote` is the format %q and `itoa` the format %d; `parse_time` is `time.Parse`
-- with the layout first.
pub record Net : Type 0 where
  pub parse_url : String → Result Url
  pub url_string : Url → String
  pub join_path : String → String → Result String
  pub url_query : Url → List (String × String)
  pub encode_query : List (String × String) → String
  pub request_error : String → Option Error
  pub send : HttpRequest → Result HttpResponse
  pub decode_now : String → Result NowResponse
  pub decode_hourly : String → Result HourlyResponse
  pub decode_daily : String → Result DailyResponse
  pub parse_float : String → Option Float64
  pub parse_time : String → String → Option Time
  pub quote : String → String
  pub itoa : ℤ → String
  pub now : Time

-- The three implementations
abbrev pub now_json : Net → QweatherPayload NowResponse
now_json net = record { response_code = λ r. r.code; decode = net.decode_now }

abbrev pub hourly_json : Net → QweatherPayload HourlyResponse
hourly_json net = record { response_code = λ r. r.code; decode = net.decode_hourly }

abbrev pub daily_json : Net → QweatherPayload DailyResponse
daily_json net = record { response_code = λ r. r.code; decode = net.decode_daily }

abbrev pub is_allowed_value : String → List String → Bool
is_allowed_value value allowed = any (λ item. value == item) allowed

abbrev pub allowed_hours : List String
allowed_hours = "24h" ∷ "72h" ∷ "168h" ∷ []

abbrev pub allowed_days : List String
allowed_days = "3d" ∷ "7d" ∷ "10d" ∷ "15d" ∷ "30d" ∷ []

-- The end of `normalizeBaseURL`
unfoldable pub base_of : Net → Url → Result String
base_of net u =
    if u.scheme != "http" && u.scheme != "https"
    then err (external (String.◌++◌ "unsupported qweather api host scheme " (net.quote u.scheme)))
    else if u.host == ""
    then err (external "qweather api host is invalid")
    else ok (
        net.url_string
          (record u { path = trim_right_slashes u.path; raw_query = ""; fragment = "" }))

unfoldable pub normalize_base_url : Net → String → Result String
unfolding base_of
normalize_base_url net host = do
  u ← net.parse_url (if contains host "://" then host else String.◌++◌ "https://" host)
  base_of net u

-- The trimmed text, or the default where nothing is left.
abbrev pub trimmed_or : String → String → String
trimmed_or def s = if trim_space s == "" then def else trim_space s

-- The checks of the two ranges at the end of `NewQWeatherClient`.
unfoldable pub with_ranges : Net → QweatherOptions → String → Result QweatherClient
with_ranges net opts base =
    let hours = trimmed_or "24h" opts.hours in
    let days = trimmed_or "3d" opts.days in
    if not (is_allowed_value hours allowed_hours)
    then err (external (String.◌++◌ "unsupported qweather hourly range " (net.quote hours)))
    else if not (is_allowed_value days allowed_days)
    then err (external (String.◌++◌ "unsupported qweather daily range " (net.quote days)))
    else ok (record {
      base_url = base;
      api_key = trim_space opts.api_key;
      bearer_token = trim_space opts.bearer_token;
      location = trim_space opts.location;
      lang = trimmed_or "zh" opts.lang;
      unit = trimmed_or "m" opts.unit;
      hours = hours;
      days = days;
    })

unfoldable pub new_qweather_client : Net → QweatherOptions → Result QweatherClient
unfolding normalize_base_url with_ranges
new_qweather_client net opts =
    if trim_space opts.api_host == ""
    then err (external "qweather api host is required")
    else if trim_space opts.location == ""
    then err (external "qweather location is required")
    else if trim_space opts.api_key == "" && trim_space opts.bearer_token == ""
    then err (external "qweather api_key or bearer_token is required")
    else (do base ← normalize_base_url net (trim_space opts.api_host); with_ranges net opts base)
