-- ===== src/Weather/Cache.antt =====
-- internal/weather/cache.go: the last forecast, kept for some time.
pub mod Freshness
use tinypanel_hub.Prelude.{pos_part}
use tinypanel_hub.Domain.{Weather, is_zero_time, zero_time}
use tinypanel_hub.Prelude.{
  ◌+◌, List, [], ◌∷◌, ℤ, pos, Bool, true, false, not, ◌&&◌, if◌then◌else◌, ltb, leb_ℤ,
}
use tinypanel_hub.Domain.{Time}
use tinypanel_hub.Store.State.{Result, ok, err}

-- `ttl` is a duration in the unit of the times.
pub record Cache : Type 0 where
  pub ttl : ℤ
  pub value : Weather
  pub expires_at : Time

-- `domain.Weather{}`
abbrev pub no_weather : Weather
no_weather = record {
  location = "";
  condition = "";
  icon = "";
  temperature = 0;
  humidity = 0;
  updated_at = zero_time;
  hourly = [];
  daily = [];
}

-- Ten minutes
abbrev pub default_ttl : ℤ
default_ttl = pos 600_000_000_000

unfoldable pub new_cache : ℤ → Cache
new_cache ttl = record {
  ttl = if leb_ℤ ttl (pos 0) then default_ttl else ttl;
  value = no_weather;
  expires_at = zero_time;
}

-- `t.Add(ttl)` for a duration that is not negative
abbrev pub later : Time → ℤ → Time
later t ttl = t + pos_part ttl

-- One call of `Current`. `now` is what its clock showed, before it took the lock, and `answer` what
-- the provider says if it is asked.
pub record CacheCall : Type 0 where
  pub now : Time
  pub answer : Result Weather

abbrev pub is_hit : Time → Cache → Bool
is_hit now c = not (is_zero_time c.expires_at) && ltb now c.expires_at

-- The cache that a provider's answer leaves.
unfoldable pub remember : Time → Result Weather → Cache → Cache
remember now (err e) c = c
remember now (ok w) c = record c { value = w; expires_at = later now c.ttl }

-- `Cache.Current`: the cache, the result, and whether the provider was asked.
unfoldable pub cache_current : CacheCall → Cache → Cache × Result Weather × Bool
unfolding remember
cache_current call c =
    if is_hit call.now c
    then (c, ok c.value, false)
    else (remember call.now call.answer c, call.answer, true)

-- The cache after calls, in the order in which they took the lock.
unfoldable pub cache_run : List CacheCall → Cache → Cache
unfolding cache_current
cache_run [] c = c
cache_run (call ∷ calls) c = cache_run calls (cache_current call c).0
