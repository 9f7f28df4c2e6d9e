-- ===== src/Weather/Cache/Freshness.antt =====
-- How old a forecast from the cache of internal/weather/cache.go can be, and when the provider is
-- asked.
use tinypanel_hub.Prelude.{All-mono}
use tinypanel_hub.Domain.{Weather}
use tinypanel_hub.Weather.Cache.{
  Cache, CacheCall, new_cache, later, is_hit, remember, cache_current, cache_run,
}
use tinypanel_hub.Prelude.{
  ◌<◌, List, [], ◌∷◌, ℤ, true, false, eq_string, eq_int, eq_nat, ◌≡◌, refl, ap, ◌∙◌, arith, All,
  Bool-cases, ◌⊎◌, inl, inr, In,
}
use tinypanel_hub.Domain.{Time}
use tinypanel_hub.Store.State.{ok_eq, Result, ok, err}

-- The cache holds nothing, or what the provider answered to one of the calls.
abbrev IsBacked : ℤ → List CacheCall → Cache → Type 0
IsBacked ttl calls c =
    (c.ttl ≡ ttl)
    × ((c.expires_at ≡ 0)
        ⊎ ((call : CacheCall) × In call calls
            × (call.answer ≡ ok c.value)
            × (c.expires_at ≡ later call.now ttl)))

more_calls :
    (ttl : ℤ) (calls : List CacheCall) (call : CacheCall) (c : Cache)
    → IsBacked ttl calls c
    → IsBacked ttl (call ∷ calls) c
more_calls ttl calls call c (t, inl e) = (t, inl e)
more_calls ttl calls call c (t, inr (old, i, a, e)) = (t, inr (old, inr i, a, e))

remember-IsBacked :
    (ttl : ℤ) (calls : List CacheCall) (call : CacheCall) (c : Cache) (r : Result Weather)
    → call.answer ≡ r
    → IsBacked ttl calls c
    → IsBacked ttl (call ∷ calls) (remember call.now r c)
unfolding remember
remember-IsBacked ttl calls call c (err e) a h = more_calls ttl calls call c h
remember-IsBacked ttl calls call c (ok w) a (t, h) =
    (t, inr (call, inl refl, a, ap (later call.now) t))

-- The calls so far stand with the last one in front.
cache_current-IsBacked :
    (ttl : ℤ) (calls : List CacheCall) (call : CacheCall) (c : Cache)
    → IsBacked ttl calls c
    → IsBacked ttl (call ∷ calls) (cache_current call c).0
unfolding cache_current
cache_current-IsBacked ttl calls call c h = elim (Bool-cases (is_hit call.now c)) [
  | inl hit ↦ rw (hit, cache_current) (more_calls ttl calls call c h)
  | inr miss ↦ rw (miss, cache_current) (remember-IsBacked ttl calls call c call.answer refl h)
]

-- The calls of a run, the last one in front of those before it.
abbrev pub newest_first : List CacheCall → List CacheCall → List CacheCall
newest_first [] before = before
newest_first (call ∷ calls) before = newest_first calls (call ∷ before)

cache_run-IsBacked :
    (ttl : ℤ) (calls before : List CacheCall) (c : Cache)
    → IsBacked ttl before c
    → IsBacked ttl (newest_first calls before) (cache_run calls c)
unfolding cache_run
cache_run-IsBacked ttl [] before c h = h
cache_run-IsBacked ttl (call ∷ calls) before c h =
    cache_run-IsBacked ttl calls (call ∷ before) (cache_current call c).0
      (cache_current-IsBacked ttl before call c h)

In-newest_first :
    (call : CacheCall) (calls before : List CacheCall)
    → In call (newest_first calls before)
    → In call calls ⊎ In call before
In-newest_first call [] before i = inr i
In-newest_first call (x ∷ calls) before i = elim (In-newest_first call calls (x ∷ before) i) [
  | inl j ↦ inl (inr j)
  | inr j ↦ elim j [ inl e ↦ inl (inl e) | inr k ↦ inr k ]
]

new_cache-IsBacked : (ttl : ℤ) → IsBacked (new_cache ttl).ttl [] (new_cache ttl)
unfolding new_cache
new_cache-IsBacked ttl = (refl, inl refl)

-- After any calls, whatever their clocks showed and in whichever order they took the lock, a
-- forecast that `Current` returns is the provider's answer to this very call, or its answer to one
-- of the calls before, whose clock showed a time less than the time to live before this one's.
pub cache_current-fresh :
    (ttl : ℤ) (calls : List CacheCall) (call : CacheCall) (w : Weather)
    → (cache_current call (cache_run calls (new_cache ttl))).1 ≡ ok w
    → (call.answer ≡ ok w)
      ⊎ ((old : CacheCall) × In old calls
          × (old.answer ≡ ok w)
          × (call.now < later old.now (new_cache ttl).ttl))
unfolding cache_current
cache_current-fresh ttl calls call w h =
    let c = cache_run calls (new_cache ttl) in
    let (same, backed) =
      cache_run-IsBacked (new_cache ttl).ttl calls [] (new_cache ttl) (new_cache-IsBacked ttl) in
    elim (Bool-cases (is_hit call.now c)) [
      | inr miss ↦ inl (rw (miss, cache_current) at h)
      | inl hit ↦
          let value : c.value ≡ w = ok_eq (rw (hit, cache_current) at h) in
          elim backed [
            | inl empty ↦ absurd (never call.now c empty hit)
            | inr (old, i, a, e) ↦ inr (
              old,
              earlier old (In-newest_first old calls [] i),
              a ∙ ap ok value,
              rw⁻¹ e (ground arith),
            )
          ]
    ]
  where
    never : (now : Time) (c : Cache) → c.expires_at ≡ 0 → is_hit now c ≡ true → ⊥
    never now c e hit = absurd (ground arith)

    earlier : (old : CacheCall) → In old calls ⊎ ⊥ → In old calls
    earlier old (inl i) = i
    earlier old (inr b) = absurd b

hit_of : (now : Time) (c : Cache) → now < c.expires_at → is_hit now c ≡ true
hit_of now c h = ground arith

cache_run_hits :
    (calls : List CacheCall) (c : Cache)
    → All (λ (x : CacheCall). x.now < c.expires_at) calls
    → cache_run calls c ≡ c
unfolding cache_run cache_current
cache_run_hits [] c h = refl
cache_run_hits (call ∷ calls) c (q, h) = rw (hit_of call.now c q) (cache_run_hits calls c h)

filled_hit :
    (c : Cache) (first call : CacheCall) (calls : List CacheCall) (w : Weather)
    → (cache_current first c).2 ≡ true
    → first.answer ≡ ok w
    → call.now < later first.now c.ttl
    → All (λ (x : CacheCall). x.now < later first.now c.ttl) calls
    → let c' = (cache_current first c).0 in
      cache_current call (cache_run calls c') ≡ (c', ok w, false)
unfolding cache_current remember
filled_hit c first call calls w asked found last h = elim (Bool-cases (is_hit first.now c)) [
  | inl hit ↦ absurd (false_true (rw (hit, cache_current) at asked))
  | inr miss ↦
      let c' = record c { value = w; expires_at = later first.now c.ttl } in
      rw (miss, cache_current)
        (rw found (rw (cache_run_hits calls c' h) (rw (hit_of call.now c' last) refl)))
]
  where
    false_true : false ≡ true → ⊥
    false_true e = cc

-- Once the provider has answered a call with a forecast, every call whose clock shows less than the
-- time to live after that one's is given this forecast, and the provider is not asked.
pub cache_current_hit :
    (ttl : ℤ) (before calls : List CacheCall) (first call : CacheCall) (w : Weather)
    → (cache_current first (cache_run before (new_cache ttl))).2 ≡ true
    → first.answer ≡ ok w
    → All (λ (x : CacheCall). x.now < later first.now (new_cache ttl).ttl) (call ∷ calls)
    → let c = (cache_current first (cache_run before (new_cache ttl))).0 in
      cache_current call (cache_run calls c) ≡ (c, ok w, false)
cache_current_hit ttl before calls first call w asked found (last, h) =
    let c = cache_run before (new_cache ttl) in
    let t =
      (cache_run-IsBacked (new_cache ttl).ttl before [] (new_cache ttl)
        (new_cache-IsBacked ttl)).0 in
    filled_hit c first call calls w asked found (rw t last) (
      All-mono (λ (x : CacheCall). x.now < later first.now (new_cache ttl).ttl)
        (λ (x : CacheCall). x.now < later first.now c.ttl) calls (λ x q. rw t q) h)
