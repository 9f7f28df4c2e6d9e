-- ===== src/Weather/Client/Checks.antt =====
-- What `NewQWeatherClient` checks.
use tinypanel_hub.Store.State.{>>=-eq-ok}
use tinypanel_hub.Weather.Client.{
  QweatherClient, QweatherOptions, Net, is_allowed_value, allowed_hours, allowed_days, trimmed_or,
  normalize_base_url, with_ranges, new_qweather_client,
}
use tinypanel_hub.Prelude.{
  String, List, [], ◌∷◌, true, false, ◌&&◌, ◌==◌, eq_string, eq_int, eq_nat, trim_space, ◌≡◌, refl,
  Bool-cases, ne_of_==, eq_iff, ◌≢◌, ◌⊎◌, inl, inr, In,
}
use tinypanel_hub.Store.State.{ok_eq, ok_err, ok}

-- A client that `NewQWeatherClient` made of the options.
pub record IsClient (opts : QweatherOptions) (c : QweatherClient) : Type 0 where
  pub located : c.location ≢ ""
  pub location : c.location ≡ trim_space opts.location
  pub api_key : c.api_key ≡ trim_space opts.api_key
  pub bearer_token : c.bearer_token ≡ trim_space opts.bearer_token
  pub credential : (c.api_key ≢ "") ⊎ (c.bearer_token ≢ "")
  pub lang : c.lang ≢ ""
  pub unit : c.unit ≢ ""
  pub hours : In c.hours allowed_hours
  pub days : In c.days allowed_days

trimmed_or_ne : (def s : String) → def ≢ "" → trimmed_or def s ≢ ""
trimmed_or_ne def s h = elim (Bool-cases (trim_space s == "")) [
  | inl e ↦ rw e h
  | inr e ↦ rw e (ne_of_== (trim_space s) "" e)
]

is_allowed_value-In :
    (value : String) (allowed : List String)
    → is_allowed_value value allowed ≡ true
    → In value allowed
is_allowed_value-In value [] h = absurd (false_true h)
  where
    false_true : false ≡ true → ⊥
    false_true e = cc
is_allowed_value-In value (x ∷ xs) h = elim (Bool-cases (value == x)) [
  | inl e ↦ inl ((eq_iff value x).0 e)
  | inr e ↦ inr (is_allowed_value-In value xs (rw e at h))
]

with_ranges-IsClient :
    (net : Net) (opts : QweatherOptions) (base : String) (c : QweatherClient)
    → trim_space opts.location ≢ ""
    → (trim_space opts.api_key ≢ "") ⊎ (trim_space opts.bearer_token ≢ "")
    → with_ranges net opts base ≡ ok c
    → IsClient opts c
unfolding with_ranges
with_ranges-IsClient net opts base c located named h =
    let hours = trimmed_or "24h" opts.hours in
    let days = trimmed_or "3d" opts.days in
    elim (Bool-cases (is_allowed_value hours allowed_hours)) [
      | inr e ↦ absurd (ok_err (rw (e, with_ranges) at h))
      | inl e ↦ elim (Bool-cases (is_allowed_value days allowed_days)) [
        | inr f ↦ absurd (ok_err (rw f at rw (e, with_ranges) at h))
        | inl f ↦ rw⁻¹ (ok_eq (rw f at rw (e, with_ranges) at h)) (record {
          located = located;
          location = refl;
          api_key = refl;
          bearer_token = refl;
          credential = named;
          lang = trimmed_or_ne "zh" opts.lang (ne_of_== "zh" "" refl);
          unit = trimmed_or_ne "m" opts.unit (ne_of_== "m" "" refl);
          hours = is_allowed_value-In hours allowed_hours e;
          days = is_allowed_value-In days allowed_days f;
        })
      ]
    ]

-- A client is only made of options that give, without the spaces around them, a location and an API
-- key or a bearer token; it has these, a language and a unit, and ranges that the service offers.
pub new_qweather_client-IsClient :
    (net : Net) (opts : QweatherOptions) (c : QweatherClient)
    → new_qweather_client net opts ≡ ok c
    → IsClient opts c
unfolding new_qweather_client
new_qweather_client-IsClient net opts c h =
    let key = trim_space opts.api_key in
    let token = trim_space opts.bearer_token in
    elim (Bool-cases (trim_space opts.api_host == "")) [
      | inl e ↦ absurd (ok_err (rw (e, new_qweather_client) at h))
      | inr e ↦
          let h1 = rw (e, new_qweather_client) at h in
          elim (Bool-cases (trim_space opts.location == "")) [
            | inl f ↦ absurd (ok_err (rw f at h1))
            | inr f ↦
                let h2 = rw f at h1 in
                elim (Bool-cases (key == "" && token == "")) [
                  | inl g ↦ absurd (ok_err (rw g at h2))
                  | inr g ↦
                      let (base, _, made) =
                        >>=-eq-ok (normalize_base_url net (trim_space opts.api_host))
                          (λ base. with_ranges net opts base) (rw g at h2) in
                      with_ranges-IsClient net opts base c
                        (ne_of_== (trim_space opts.location) "" f) (one_of key token g) made
                ]
          ]
    ]
  where
    one_of : (key token : String) → (key == "" && token == "") ≡ false → (key ≢ "") ⊎ (token ≢ "")
    one_of key token g = elim (Bool-cases (key == "")) [
      | inr e ↦ inl (ne_of_== key "" e)
      | inl e ↦ inr (ne_of_== token "" (rw e at g))
    ]
