-- ===== src/Weather/Forecasts/Whole.antt =====
-- A forecast of the weather client is whole or an error.
use Prim.Native.String
use tinypanel_hub.Domain.{Weather}
use tinypanel_hub.Weather.Client.{
  now_json, hourly_json, daily_json, QweatherClient, QweatherOptions, HttpRequest, Net, NowResponse,
  HourlyResponse, DailyResponse, new_qweather_client,
}
use tinypanel_hub.Weather.Client.Checks.{new_qweather_client-IsClient}
use tinypanel_hub.Weather.Requests.{Traced, and_then}
use tinypanel_hub.Weather.Requests.Answers.{IsAuthorized, Answers, Asks, get-IsAuthorized}
use tinypanel_hub.Weather.Forecasts.{
  now_weather, hourly_forecast, daily_forecast, now_path, range_path, current_part, hourly_part,
  daily_part, qweather_current,
}
use tinypanel_hub.Prelude.{List, [], ◌∷◌, ◌++◌, eq_string, eq_int, eq_nat, ◌≡◌, All, All-append}
use tinypanel_hub.Store.State.{Result, ok, err}

all_sent :
    {A B : Type 0} (P : HttpRequest → Type 0) (x : Traced A) (f : A → Traced B)
    → All P x.0
    → ((a : A) → All P (f a).0)
    → All P (and_then x f).0
all_sent P (sent, err e) f h k = h
all_sent P (sent, ok a) f h k = All-append P sent (f a).0 h (k a)

-- Every request that `Current` sends carries the bearer token of the options where they give one,
-- and their API key, which is then not empty, otherwise: for every client that `NewQWeatherClient`
-- makes of the options, and whatever the network answers.
pub qweather_current-IsAuthorized :
    (net net' : Net) (opts : QweatherOptions) (c : QweatherClient)
    → new_qweather_client net opts ≡ ok c
    → All (IsAuthorized opts) (qweather_current net' c).0
unfolding qweather_current current_part hourly_part daily_part
qweather_current-IsAuthorized net net' opts c made =
    let k = new_qweather_client-IsClient net opts c made in
    all_sent (IsAuthorized opts) (current_part net' c) _
      (get-IsAuthorized (now_json net') net' opts c now_path k)
      λ current.
        all_sent (IsAuthorized opts) (hourly_part net' c) _
          (get-IsAuthorized (hourly_json net') net' opts c (range_path c.hours) k)
          λ hourly.
            all_sent (IsAuthorized opts) (daily_part net' c) _
              (get-IsAuthorized (daily_json net') net' opts c (range_path c.days) k) λ daily. tt

-- The second list holds what the function gives for the first, item by item.
abbrev pub Each : {A B : Type 0} → (A → Result B) → List A → List B → Type 0
Each f [] [] = Unit
Each f [] (y ∷ ys) = ⊥
Each f (x ∷ xs) [] = ⊥
Each f (x ∷ xs) (y ∷ ys) = (f x ≡ ok y) × Each f xs ys

-- The forecast `w` put together from the answers to three requests, which were all that was sent.
pub record IsWhole (net : Net) (c : QweatherClient) (sent : List HttpRequest) (w : Weather)
    : Type 0 where
  pub now_request : HttpRequest
  pub hourly_request : HttpRequest
  pub daily_request : HttpRequest
  pub now : NowResponse
  pub hourly : HourlyResponse
  pub daily : DailyResponse
  pub in_order : sent ≡ now_request ∷ hourly_request ∷ daily_request ∷ []
  pub now_asks : Asks net c "/v7/weather/now" now_request
  pub hourly_asks : Asks net c (String.◌++◌ "/v7/weather/" c.hours) hourly_request
  pub daily_asks : Asks net c (String.◌++◌ "/v7/weather/" c.days) daily_request
  pub now_answers : Answers (now_json net) net now_request now
  pub hourly_answers : Answers (hourly_json net) net hourly_request hourly
  pub daily_answers : Answers (daily_json net) net daily_request daily
  pub now_part : now_weather net c now ≡ ok (record w { hourly = []; daily = [] })
  pub hours : Each (hourly_forecast net) hourly.hourly w.hourly
  pub days : Each (daily_forecast net) daily.daily w.daily
