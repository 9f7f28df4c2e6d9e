-- ===== src/Weather/Requests.antt =====
-- internal/weather/qweather.go: one request to the weather service.
pub mod Answers
use Prim.Native.String
use tinypanel_hub.Store.State.{◌>>=◌}
use tinypanel_hub.Weather.Client.{
  QweatherClient, QweatherPayload, Url, HttpRequest, HttpResponse, Net,
}
use tinypanel_hub.Prelude.{
  ◌+◌, ◌-◌, String, List, [], ◌∷◌, ◌++◌, none, some, pos, ◌||◌, if◌then◌else◌, ◌==◌, ◌!=◌,
  eq_string, eq_int, eq_nat, ltb_ℤ, leb_ℤ, filter,
}
use tinypanel_hub.Store.State.{external, Result, ok, err}

-- The requests that a call sends, in order, and its result.
abbrev pub Traced : Type 0 → Type 0
Traced A = List HttpRequest × Result A

abbrev pub and_then : {A B : Type 0} → Traced A → (A → Traced B) → Traced B
and_then (sent, err e) f = (sent, err e)
and_then (sent, ok a) f = let (more, b) = f a in (sent ++ more, b)

-- `q.Set(key, value)`
abbrev pub set_value : String → String → List (String × String) → List (String × String)
set_value key value q = filter (λ (p : String × String). p.0 != key) q ++ (key, value) ∷ []

-- The credential that `get` sets on a request.
unfoldable pub credential : QweatherClient → String × String
credential c =
    if c.bearer_token != ""
    then ("Authorization", String.◌++◌ "Bearer " c.bearer_token)
    else ("X-QW-Api-Key", c.api_key)

unfoldable pub request_url : Net → QweatherClient → Url → String
request_url net c u =
    let q =
      set_value "unit" c.unit
        (set_value "lang" c.lang (set_value "location" c.location (net.url_query u))) in
    net.url_string (record u { raw_query = net.encode_query q })

-- `http.NewRequestWithContext`, then the header.
unfoldable pub new_request : Net → QweatherClient → Url → Result HttpRequest
unfolding credential request_url
new_request net c u = elim (net.request_error (request_url net c u)) [
  | some e ↦ err e
  | none ↦ ok (record { url = request_url net c u; header = credential c ∷ [] })
]

-- The request of `get`
unfoldable pub request_of : Net → QweatherClient → String → Result HttpRequest
unfolding new_request
request_of net c path = do
  endpoint ← net.join_path c.base_url path
  u ← net.parse_url endpoint
  new_request net c u

unfoldable pub check_code : {A : Type 0} ⦃p : QweatherPayload A⦄ → A → Result A
check_code ⦃p⦄ dst =
    if p.response_code dst != "200"
    then (if p.response_code dst == ""
        then err (external "qweather response missing code")
        else err (external (String.◌++◌ "qweather code " (p.response_code dst))))
    else ok dst

-- What `get` makes of a response.
unfoldable pub read_response : {A : Type 0} ⦃p : QweatherPayload A⦄ → Net → HttpResponse → Result A
unfolding check_code
read_response ⦃p⦄ net resp =
    if ltb_ℤ resp.status_code (pos 200) || leb_ℤ (pos 300) resp.status_code
    then err (external (String.◌++◌ "qweather status " (net.itoa resp.status_code)))
    else (do b ← resp.body; dst ← p.decode b; check_code dst)

unfoldable pub get : {A : Type 0} ⦃p : QweatherPayload A⦄ → Net → QweatherClient → String → Traced A
unfolding request_of read_response
get net c path = elim (request_of net c path) [
  | err e ↦ ([], err e)
  | ok req ↦ (req ∷ [], net.send req >>= read_response net)
]
