-- ===== src/Weather/Forecasts.antt =====
-- internal/weather/qweather.go: the three parts of a forecast, and `Current`.
pub mod Whole
use Prim.Native.String
use tinypanel_hub.Store.State.{◌>>=◌}
use tinypanel_hub.Weather.Client.{
  now_json, hourly_json, daily_json, QweatherClient, NowResponse, HourlyPayload, DailyPayload, Net,
}
use tinypanel_hub.Weather.Requests.{Traced, and_then, get}
use tinypanel_hub.Domain.{
  Weather, WeatherHourlyForecast, WeatherDailyForecast, Float64, zero_time, is_zero_time,
}
use tinypanel_hub.Prelude.{
  ◌+◌, ◌-◌, String, List, [], ◌∷◌, ◌++◌, Option, none, some, if◌then◌else◌, ◌==◌, eq_string, eq_int,
  eq_nat,
}
use tinypanel_hub.Domain.{Time}
use tinypanel_hub.Store.State.{external, Result, ok, err}

unfoldable pub parse_qweather_float : Net → String → String → Result Float64
parse_qweather_float net raw field = elim (net.parse_float raw) [
  | some value ↦ ok value
  | none ↦ err (
      external (
        String.◌++◌ "qweather "
          (String.◌++◌ field (String.◌++◌ " " (String.◌++◌ (net.quote raw) " is invalid")))))
]

unfoldable pub parse_optional_qweather_float : Net → String → Option Float64
parse_optional_qweather_float net raw = if raw == "" then none else net.parse_float raw

-- The first layout that fits, of RFC 3339 and the same without seconds; the zero time otherwise.
unfoldable pub parse_qweather_time : Net → String → Time
parse_qweather_time net raw =
    if raw == "" then zero_time else elim (net.parse_time "2006-01-02T15:04:05Z07:00" raw) [
      | some t ↦ t
      | none ↦ elim (net.parse_time "2006-01-02T15:04Z07:00" raw) [ some t ↦ t | none ↦ zero_time ]
    ]

-- `if updatedAt.IsZero()`
abbrev pub or_time : Time → Time → Time
or_time t u = if is_zero_time t then u else t

unfoldable pub now_weather : Net → QweatherClient → NowResponse → Result Weather
unfolding parse_qweather_float parse_qweather_time
now_weather net c payload = do
  temp ← parse_qweather_float net payload.now.temp "temp"
  humidity ← parse_qweather_float net payload.now.humidity "humidity"
  ok (record {
    location = c.location;
    condition = payload.now.text;
    icon = payload.now.icon;
    temperature = temp;
    humidity = humidity;
    updated_at =
        or_time
          (or_time (parse_qweather_time net payload.now.obs_time)
            (parse_qweather_time net payload.update_time))
          net.now;
    hourly = [];
    daily = [];
  })

-- One round of the loop of `hourly`
unfoldable pub hourly_forecast : Net → HourlyPayload → Result WeatherHourlyForecast
unfolding parse_qweather_float parse_qweather_time parse_optional_qweather_float
hourly_forecast net item =
    let time = parse_qweather_time net item.fx_time in
    if is_zero_time time
    then err (
        external (
          String.◌++◌ "qweather hourly fxTime "
            (String.◌++◌ (net.quote item.fx_time) " is invalid")))
    else (do
      temp ← parse_qweather_float net item.temp "hourly temp"
      humidity ← parse_qweather_float net item.humidity "hourly humidity"
      precip ← parse_qweather_float net item.precip "hourly precip"
      wind_speed ← parse_qweather_float net item.wind_speed "hourly windSpeed"
      ok (record {
        time = time;
        condition = item.text;
        icon = item.icon;
        temperature = temp;
        humidity = humidity;
        precipitation = precip;
        precip_probability = parse_optional_qweather_float net item.pop;
        wind_direction = item.wind_dir;
        wind_scale = item.wind_scale;
        wind_speed = wind_speed;
      }))

-- One round of the loop of `daily`
unfoldable pub daily_forecast : Net → DailyPayload → Result WeatherDailyForecast
unfolding parse_qweather_float
daily_forecast net item = do
  temp_min ← parse_qweather_float net item.temp_min "daily tempMin"
  temp_max ← parse_qweather_float net item.temp_max "daily tempMax"
  humidity ← parse_qweather_float net item.humidity "daily humidity"
  precip ← parse_qweather_float net item.precip "daily precip"
  wind_speed_day ← parse_qweather_float net item.wind_speed_day "daily windSpeedDay"
  wind_speed_night ← parse_qweather_float net item.wind_speed_night "daily windSpeedNight"
  ok (record {
    date = item.fx_date;
    sunrise = item.sunrise;
    sunset = item.sunset;
    condition_day = item.text_day;
    condition_night = item.text_night;
    icon_day = item.icon_day;
    icon_night = item.icon_night;
    temperature_min = temp_min;
    temperature_max = temp_max;
    humidity = humidity;
    precipitation = precip;
    wind_direction_day = item.wind_dir_day;
    wind_scale_day = item.wind_scale_day;
    wind_speed_day = wind_speed_day;
    wind_direction_night = item.wind_dir_night;
    wind_scale_night = item.wind_scale_night;
    wind_speed_night = wind_speed_night;
  })

-- The loop of `hourly` and of `daily`: the items in order, up to the first error.
unfoldable pub all_items : {A B : Type 0} → (A → Result B) → List A → Result (List B)
all_items f [] = ok []
all_items f (x ∷ xs) = do item ← f x; items ← all_items f xs; ok (item ∷ items)

-- The result of a request, handed on.
abbrev pub and_parse : {A B : Type 0} → Traced A → (A → Result B) → Traced B
and_parse (sent, r) f = (sent, r >>= f)

abbrev pub now_path : String
now_path = "/v7/weather/now"

abbrev pub range_path : String → String
range_path range = String.◌++◌ "/v7/weather/" range

-- The method `current`
unfoldable pub current_part : Net → QweatherClient → Traced Weather
unfolding get now_weather
current_part net c = and_parse (get ⦃p = now_json net⦄ net c now_path) (now_weather net c)

-- The method `hourly`
unfoldable pub hourly_part : Net → QweatherClient → Traced (List WeatherHourlyForecast)
unfolding get hourly_forecast all_items
hourly_part net c =
    and_parse (get ⦃p = hourly_json net⦄ net c (range_path c.hours))
      (λ payload. all_items (hourly_forecast net) payload.hourly)

-- The method `daily`
unfoldable pub daily_part : Net → QweatherClient → Traced (List WeatherDailyForecast)
unfolding get daily_forecast all_items
daily_part net c =
    and_parse (get ⦃p = daily_json net⦄ net c (range_path c.days))
      (λ payload. all_items (daily_forecast net) payload.daily)

-- `QWeatherClient.Current`
unfoldable pub qweather_current : Net → QweatherClient → Traced Weather
unfolding current_part hourly_part daily_part
qweather_current net c = and_then (current_part net c) λ current.
    and_then (hourly_part net c) λ hourly.
      and_then (daily_part net c)
        λ daily. ([], ok (record current { hourly = hourly; daily = daily }))
