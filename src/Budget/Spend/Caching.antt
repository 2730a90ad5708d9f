-- ===== src/Budget/Spend/Caching.antt =====
-- The cache of spends: hits, misses, and what the background eviction removes.
use agent_ledger.Base.{
  ◌≤ℤ◌, ◌<ℤ◌, Bool, String, str_append, ◌≡◌, arith, Option, none, some, -ℤ_parts, ltb_ℤ,
  Option-cases, inl, inr,
}
use agent_ledger.Base.GoMap
use agent_ledger.Base.Clock.{Time, Duration, sub}
use agent_ledger.Budget.Spend.{
  Ledger, Calendar, Reads, SpendEntry, Cache, query, cached_spend, get_spend, get_tenant_spend,
  evict_stale_cache,
}

sub_mono : (t u x : Time) → t ≤ℤ u → sub t x ≤ℤ sub u x
unfolding sub
sub_mono t u x h = ground (arith, -ℤ_parts t x, -ℤ_parts u x)

module _ {A : Type 0} where
  -- A lookup finds no entry, or one that is as old as the time to live.
  abbrev pub Misses : Duration → Option (SpendEntry A) → Time → Type 0
  Misses ttl none now = Unit {0}
  Misses ttl (some e) now = ttl ≤ℤ sub now e.fetched

  -- A lookup that missed is repeated by every lookup that starts less than the time to live after
  -- its result was stored: the same values, whatever the ledger says by then, and no change of
  -- the cache.
  pub get_spend_repeats :
      (ledger later : Ledger A) (cal : Calendar) (ttl : Duration) (cache : Cache A) (key : String)
      (t u : Reads)
      → Misses ttl (GoMap.get cache key) t.looked_up
      → sub u.looked_up t.stored <ℤ ttl
      → let first = get_spend ledger cal ttl cache key t in
        get_spend later cal ttl first.0 key u ≡ (first.0, first.1)
  unfolding get_spend
  get_spend_repeats ledger later cal ttl cache key t u miss h =
      ground (arith, GoMap.get-put_self cache key (query ledger.get_total_spend cal key t))

  -- A lookup that misses reads the day's and the month's totals from the ledger, for an API key.
  pub get_spend_queries :
      (ledger : Ledger A) (cal : Calendar) (ttl : Duration) (cache : Cache A) (key : String)
      (t : Reads)
      → Misses ttl (GoMap.get cache key) t.looked_up
      → (get_spend ledger cal ttl cache key t).1 ≡ (
        (ledger.get_total_spend key (cal.day_start t.queried) t.queried).0,
        (ledger.get_total_spend key (cal.month_start t.queried) t.queried).0,
      )
  unfolding get_spend
  get_spend_queries ledger cal ttl cache key t miss = ground arith

  cached_spend-evicted :
      (total : String → Time → Time → A × Bool) (cal : Calendar) (ttl : Duration) (cache : Cache A)
      (cache_key subject : String) (now : Time) (t : Reads)
      → GoMap.Distinct cache
      → now ≤ℤ t.looked_up
      → (cached_spend total cal ttl (evict_stale_cache ttl cache now) cache_key subject t).1
        ≡ (cached_spend total cal ttl cache cache_key subject t).1
  unfolding cached_spend evict_stale_cache
  cached_spend-evicted total cal ttl cache cache_key subject now t u h =
      elim (Option-cases (GoMap.get cache cache_key)) [
        | inl missing ↦
            ground
              (arith, GoMap.get-delete_where (λ e. ltb_ℤ ttl (sub now e.fetched)) cache cache_key u)
        | inr (e, found) ↦ ground (
          arith,
          GoMap.get-delete_where (λ e. ltb_ℤ ttl (sub now e.fetched)) cache cache_key u,
          sub_mono now t.looked_up e.fetched h,
        )
      ]

  -- The background eviction changes the result of no lookup that starts afterwards, neither of a
  -- key's spend nor of a tenant's.
  pub spend-evict_stale_cache :
      (ledger : Ledger A) (cal : Calendar) (ttl : Duration) (cache : Cache A) (subject : String)
      (now : Time) (t : Reads)
      → GoMap.Distinct cache
      → now ≤ℤ t.looked_up
      → let evicted = evict_stale_cache ttl cache now in
        ((get_spend ledger cal ttl evicted subject t).1
          ≡ (get_spend ledger cal ttl cache subject t).1)
        × ((get_tenant_spend ledger cal ttl evicted subject t).1
            ≡ (get_tenant_spend ledger cal ttl cache subject t).1)
  unfolding get_spend get_tenant_spend
  spend-evict_stale_cache ledger cal ttl cache subject now t u h = (
    cached_spend-evicted ledger.get_total_spend cal ttl cache subject subject now t u h,
    cached_spend-evicted ledger.get_total_spend_by_tenant cal ttl cache
        (str_append "tenant:" subject) subject now t u h,
  )
