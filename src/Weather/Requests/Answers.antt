-- ===== src/Weather/Requests/Answers.antt =====
-- What a request of the weather client carries, and what it takes for an answer.
use Prim.Native.String
use tinypanel_hub.Store.State.{◌>>=◌, >>=-eq-ok}
use tinypanel_hub.Weather.Client.{
  QweatherClient, QweatherOptions, QweatherPayload, Url, HttpRequest, HttpResponse, Net,
}
use tinypanel_hub.Weather.Client.Checks.{IsClient}
use tinypanel_hub.Weather.Requests.{
  credential, set_value, request_url, new_request, request_of, check_code, read_response, get,
}
use tinypanel_hub.Prelude.{
  String, [], ◌∷◌, pos, ◌||◌, ◌==◌, eq_string, eq_int, eq_nat, ltb_ℤ, leb_ℤ, trim_space, ◌≡◌, refl,
  sym, ap, ◌∙◌, arith, All, Bool-cases, Option-cases, ne_of_==, eq_iff, ◌≢◌, ◌⊎◌, inl, inr, ◌≤ℤ◌,
  ◌<ℤ◌,
}
use tinypanel_hub.Store.State.{ok_eq, ok_err, ok, Result-cases}

-- The request carries one credential of the options: the bearer token where there is one, the API
-- key otherwise.
abbrev pub IsAuthorized : QweatherOptions → HttpRequest → Type 0
IsAuthorized opts r =
    ((trim_space opts.bearer_token ≢ "")
      × (r.header ≡ ("Authorization", String.◌++◌ "Bearer " (trim_space opts.bearer_token)) ∷ []))
    ⊎ ((trim_space opts.bearer_token ≡ "")
        × (trim_space opts.api_key ≢ "")
        × (r.header ≡ ("X-QW-Api-Key", trim_space opts.api_key) ∷ []))

new_request-header :
    (net : Net) (c : QweatherClient) (u : Url) (r : HttpRequest)
    → new_request net c u ≡ ok r
    → r.header ≡ credential c ∷ []
unfolding new_request
new_request-header net c u r h = elim (Option-cases (net.request_error (request_url net c u))) [
  | inl e ↦ sym (ap (λ (x : HttpRequest). x.header) (ok_eq (rw (e, new_request) at h)))
  | inr (x, e) ↦ absurd (ok_err (rw (e, new_request) at h))
]

credential-IsAuthorized :
    (opts : QweatherOptions) (c : QweatherClient) (r : HttpRequest)
    → IsClient opts c
    → r.header ≡ credential c ∷ []
    → IsAuthorized opts r
unfolding credential
credential-IsAuthorized opts c r k h = elim (Bool-cases (c.bearer_token == "")) [
  | inr e ↦ inl (rw⁻¹ k.bearer_token (ne_of_== c.bearer_token "" e, h ∙ rw (e, credential) refl))
  | inl e ↦
      let empty = (eq_iff c.bearer_token "").0 e in
      inr (
        rw⁻¹ k.bearer_token
          (rw⁻¹ k.api_key (empty, some_key k.credential empty, h ∙ rw (e, credential) refl)))
]
  where
    some_key : (c.api_key ≢ "") ⊎ (c.bearer_token ≢ "") → c.bearer_token ≡ "" → c.api_key ≢ ""
    some_key (inl q) empty = q
    some_key (inr q) empty = absurd (q empty)

request_of-IsAuthorized :
    (net : Net) (opts : QweatherOptions) (c : QweatherClient) (path : String) (r : HttpRequest)
    → IsClient opts c
    → request_of net c path ≡ ok r
    → IsAuthorized opts r
unfolding request_of
request_of-IsAuthorized net opts c path r k h =
    let (endpoint, _, h1) =
      >>=-eq-ok (net.join_path c.base_url path)
        (λ endpoint. net.parse_url endpoint >>= λ u. new_request net c u) h in
    let (u, _, h2) = >>=-eq-ok (net.parse_url endpoint) (λ u. new_request net c u) h1 in
    credential-IsAuthorized opts c r k (new_request-header net c u r h2)

-- The payload `a` is what a response that counts says: the status of the response is one of success,
-- its body decodes to the payload, and the code of the payload is "200".
pub record Answers {A : Type 0} (p : QweatherPayload A) (net : Net) (r : HttpRequest) (a : A)
    : Type 0 where
  pub response : HttpResponse
  pub sent : net.send r ≡ ok response
  pub status : (pos 200 ≤ℤ response.status_code) × (response.status_code <ℤ pos 300)
  pub text : String
  pub body : response.body ≡ ok text
  pub read : p.decode text ≡ ok a
  pub code : p.response_code a ≡ "200"

check_code_lem :
    {A : Type 0} (p : QweatherPayload A) (d a : A)
    → check_code ⦃p = p⦄ d ≡ ok a
    → (d ≡ a) × (p.response_code a ≡ "200")
unfolding check_code
check_code_lem p d a h = elim (Bool-cases (p.response_code d == "200")) [
  | inl e ↦
      let same : d ≡ a = ok_eq (rw (e, check_code) at h) in
      (same, rw⁻¹ same ((eq_iff (p.response_code d) "200").0 e))
  | inr e ↦ elim (Bool-cases (p.response_code d == "")) [
    | inl f ↦ absurd (ok_err (rw f at rw (e, check_code) at h))
    | inr f ↦ absurd (ok_err (rw f at rw (e, check_code) at h))
  ]
]

read_response-Answers :
    {A : Type 0} (p : QweatherPayload A) (net : Net) (r : HttpRequest) (resp : HttpResponse) (a : A)
    → net.send r ≡ ok resp
    → read_response ⦃p = p⦄ net resp ≡ ok a
    → Answers p net r a
unfolding read_response
read_response-Answers p net r resp a sent h =
    elim (Bool-cases (ltb_ℤ resp.status_code (pos 200) || leb_ℤ (pos 300) resp.status_code)) [
      | inl e ↦ absurd (ok_err (rw (e, read_response) at h))
      | inr e ↦
          let (b, whole, h1) =
            >>=-eq-ok resp.body (λ b. p.decode b >>= check_code ⦃p = p⦄)
              (rw (e, read_response) at h) in
          let (d, decoded, h2) = >>=-eq-ok (p.decode b) (check_code ⦃p = p⦄) h1 in
          let (same, accepted) = check_code_lem p d a h2 in
          record {
            response = resp;
            sent = sent;
            status = ground arith;
            text = b;
            body = whole;
            read = decoded ∙ ap ok same;
            code = accepted;
          }
    ]

-- The request `r` asks for the given path of the service, for the location, the language and the
-- unit of the client.
pub record Asks (net : Net) (c : QweatherClient) (path : String) (r : HttpRequest) : Type 0 where
  pub endpoint : String
  pub parsed : Url
  pub joined : net.join_path c.base_url path ≡ ok endpoint
  pub parse : net.parse_url endpoint ≡ ok parsed
  pub url :
      r.url
      ≡ net.url_string (record parsed {
        raw_query = net.encode_query (
            set_value "unit" c.unit
              (set_value "lang" c.lang (set_value "location" c.location (net.url_query parsed))));
      })

new_request-url :
    (net : Net) (c : QweatherClient) (u : Url) (r : HttpRequest)
    → new_request net c u ≡ ok r
    → r.url ≡ request_url net c u
unfolding new_request
new_request-url net c u r h = elim (Option-cases (net.request_error (request_url net c u))) [
  | inl e ↦ sym (ap (λ (x : HttpRequest). x.url) (ok_eq (rw (e, new_request) at h)))
  | inr (x, e) ↦ absurd (ok_err (rw (e, new_request) at h))
]

request_of-Asks :
    (net : Net) (c : QweatherClient) (path : String) (r : HttpRequest)
    → request_of net c path ≡ ok r
    → Asks net c path r
unfolding request_of request_url
request_of-Asks net c path r h =
    let (endpoint, joined, h1) =
      >>=-eq-ok (net.join_path c.base_url path)
        (λ endpoint. net.parse_url endpoint >>= λ u. new_request net c u) h in
    let (u, parse, h2) = >>=-eq-ok (net.parse_url endpoint) (λ u. new_request net c u) h1 in
    record {
      endpoint = endpoint;
      parsed = u;
      joined = joined;
      parse = parse;
      url = new_request-url net c u r h2;
    }

-- A `get` that succeeds has sent one request, for its path, which was answered.
pub get-Answers :
    {A : Type 0} (p : QweatherPayload A) (net : Net) (c : QweatherClient) (path : String) (a : A)
    → (get ⦃p = p⦄ net c path).1 ≡ ok a
    → (r : HttpRequest) × ((get ⦃p = p⦄ net c path).0 ≡ r ∷ [])
      × Asks net c path r
      × Answers p net r a
unfolding get
get-Answers p net c path a h = elim (Result-cases (request_of net c path)) [
  | inr (e, f) ↦ absurd (ok_err (rw (f, get) at h))
  | inl (r, f) ↦
      let (resp, sent, h1) =
        >>=-eq-ok (net.send r) (read_response ⦃p = p⦄ net) (rw (f, get) at h) in
      rw (f, get)
        (r, refl, request_of-Asks net c path r f, read_response-Answers p net r resp a sent h1)
]

-- Every request of a `get` is authorized, whether it succeeds or not.
pub get-IsAuthorized :
    {A : Type 0} (p : QweatherPayload A) (net : Net) (opts : QweatherOptions) (c : QweatherClient)
    (path : String)
    → IsClient opts c
    → All (IsAuthorized opts) (get ⦃p = p⦄ net c path).0
unfolding get
get-IsAuthorized p net opts c path k = elim (Result-cases (request_of net c path)) [
  | inr (e, f) ↦ rw (f, get) tt
  | inl (r, f) ↦ rw (f, get) (request_of-IsAuthorized net opts c path r k f, tt)
]
