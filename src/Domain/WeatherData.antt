-- ===== src/Domain/WeatherData.antt =====
-- The weather structs of internal/domain/models.go.
use tinypanel_hub.Prelude.{String, List, Option}
use tinypanel_hub.Domain.Basic.{Time, Float64}

pub record WeatherHourlyForecast : Type 0 where
  pub time : Time
  pub condition : String
  pub icon : String
  pub temperature : Float64
  pub humidity : Float64
  pub precipitation : Float64
  pub precip_probability : Option Float64
  pub wind_direction : String
  pub wind_scale : String
  pub wind_speed : Float64

pub record WeatherDailyForecast : Type 0 where
  pub date : String
  pub sunrise : String
  pub sunset : String
  pub condition_day : String
  pub condition_night : String
  pub icon_day : String
  pub icon_night : String
  pub temperature_min : Float64
  pub temperature_max : Float64
  pub humidity : Float64
  pub precipitation : Float64
  pub wind_direction_day : String
  pub wind_scale_day : String
  pub wind_speed_day : Float64
  pub wind_direction_night : String
  pub wind_scale_night : String
  pub wind_speed_night : Float64

pub record Weather : Type 0 where
  pub location : String
  pub condition : String
  pub icon : String
  pub temperature : Float64
  pub humidity : Float64
  pub updated_at : Time
  pub hourly : List WeatherHourlyForecast
  pub daily : List WeatherDailyForecast
