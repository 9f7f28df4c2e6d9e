-- ===== src/Tests/WeatherTests.antt =====
-- The weather client, its cache and the configuration at concrete inputs.
use Prim.Native.String
use tinypanel_hub.Prelude.{contains, trim_right_slashes, trim_left, trim_right, is_space}
use tinypanel_hub.Domain.{Weather}
use tinypanel_hub.Httpapi.Request.{Decoder}
use tinypanel_hub.Store.File.{text}
use tinypanel_hub.Config.{Config, fill_defaults, parse_config, load_config}
use tinypanel_hub.Config.Defaults.{IsComplete, load_config-IsComplete}
use tinypanel_hub.Weather.Client.{
  QweatherClient, QweatherOptions, NowResponse, Net, base_of, normalize_base_url, with_ranges,
  new_qweather_client,
}
use tinypanel_hub.Weather.Requests.Answers.{IsAuthorized}
use tinypanel_hub.Weather.Forecasts.{qweather_current}
use tinypanel_hub.Weather.Forecasts.Whole.{qweather_current-IsAuthorized}
use tinypanel_hub.Weather.Cache.{
  CacheCall, no_weather, new_cache, later, remember, cache_current, cache_run,
}
use tinypanel_hub.Weather.Cache.Freshness.{cache_current-fresh, cache_current_hit}
use tinypanel_hub.Prelude.{
  ◌<◌, [], ◌∷◌, none, some, pos, true, false, if◌then◌else◌, ◌==◌, eq_string, eq_int, eq_nat,
  trim_space, ◌≡◌, refl, arith, All, ◌⊎◌, In,
}
use tinypanel_hub.Store.State.{external, ok, err}

abbrev sunny : Weather
sunny = record no_weather { condition = "sunny" }

-- The provider is asked at 100, and fails at 200.
abbrev early : CacheCall
early = record { now = 100; answer = ok sunny }

abbrev late : CacheCall
late = record { now = 200; answer = err (external "down") }

late_answer : (cache_current late (cache_run (early ∷ []) (new_cache (pos 300)))).1 ≡ ok sunny
unfolding cache_current cache_run remember new_cache
late_answer = refl

new_ttl : (new_cache (pos 300)).ttl ≡ pos 300
unfolding new_cache
new_ttl = refl

cache_current-fresh_example :
    (late.answer ≡ ok sunny)
    ⊎ ((old : CacheCall) × In old (early ∷ [])
        × (old.answer ≡ ok sunny)
        × (200 < later old.now (new_cache (pos 300)).ttl))
cache_current-fresh_example = cache_current-fresh (pos 300) (early ∷ []) late sunny late_answer

early_asks : (cache_current early (cache_run [] (new_cache (pos 300)))).2 ≡ true
unfolding cache_current cache_run remember new_cache
early_asks = refl

in_time : All (λ (x : CacheCall). x.now < later 100 (new_cache (pos 300)).ttl) (late ∷ late ∷ [])
in_time = rw new_ttl (omega arith, (omega arith, tt))

cache_current_hit_example :
    let c = (cache_current early (cache_run [] (new_cache (pos 300)))).0 in
    cache_current late (cache_run (late ∷ []) c) ≡ (c, ok sunny, false)
cache_current_hit_example =
    cache_current_hit (pos 300) [] (late ∷ []) early late sunny early_asks refl in_time

-- A file that names the provider and leaves all else out.
abbrev named : Config
named = record {
  server = record { addr = ""; api_token = "admin" };
  storage = record { data_file = ""; telemetry_file = "" };
  weather = record {
    provider = "qweather";
    api_host = "qw.example";
    api_key = "key";
    bearer_token = "";
    location = "101";
    lang = "";
    unit = "";
    hours = "72h";
    days = "";
    cache_ttl = "";
    timeout = "";
  };
}

abbrev pub config_json : Config → Decoder Config
config_json _ = record { first = λ _. ok (named, ""); at_end = λ rest. rest == "" }

loaded : load_config config_json (λ _. text "{}") "" ≡ ok (fill_defaults named)
unfolding load_config parse_config trim_space trim_left trim_right is_space
loaded = refl

load_config-IsComplete_example : IsComplete (fill_defaults named)
load_config-IsComplete_example =
    load_config-IsComplete config_json (λ _. text "{}") "" (fill_defaults named) loaded

abbrev now_answer : NowResponse
now_answer = record {
  code = "200";
  update_time = "t";
  now = record { obs_time = ""; temp = "21"; icon = "100"; text = "sunny"; humidity = "40" };
}

-- A network that answers every request, with a forecast for no hours and no days.
abbrev pub net : Net
net = record {
  parse_url = λ u.
      ok (record {
        scheme = "https";
        host = "qw.example";
        path = "/";
        raw_query = "";
        fragment = "";
      });
  url_string = λ u. String.◌++◌ u.scheme (String.◌++◌ "://" (String.◌++◌ u.host u.path));
  join_path = λ base path. ok (String.◌++◌ base path);
  url_query = λ u. [];
  encode_query = λ q. "";
  request_error = λ u. none;
  send = λ r. ok (record { status_code = pos 200; body = ok "{}" });
  decode_now = λ b. ok now_answer;
  decode_hourly = λ b. ok (record { code = "200"; hourly = [] });
  decode_daily = λ b. ok (record { code = "200"; daily = [] });
  parse_float = λ s. if s == "21" then some 21 else if s == "40" then some 40 else none;
  parse_time = λ layout s. some 77;
  quote = λ s. s;
  itoa = λ n. "";
  now = 99;
}

abbrev opts : QweatherOptions
opts = record {
  api_host = "qw.example";
  api_key = " key ";
  bearer_token = "";
  location = "101";
  lang = "";
  unit = "";
  hours = "72h";
  days = "";
}

made : (c : QweatherClient) × (new_qweather_client net opts ≡ ok c)
unfolding new_qweather_client normalize_base_url base_of with_ranges trim_right_slashes contains
    trim_space trim_left trim_right is_space
made = (_, refl)

qweather_current-IsAuthorized_example : All (IsAuthorized opts) (qweather_current net made.0).0
qweather_current-IsAuthorized_example = qweather_current-IsAuthorized net net opts made.0 made.1

abbrev client : QweatherClient
client = record {
  base_url = "https://qw.example";
  api_key = "key";
  bearer_token = "";
  location = "101";
  lang = "zh";
  unit = "m";
  hours = "72h";
  days = "3d";
}
