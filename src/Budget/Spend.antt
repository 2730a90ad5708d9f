-- ===== src/Budget/Spend.antt =====
-- internal/budget/budget.go: the spend of a key or a tenant, through a short-lived cache.
pub mod Caching
use agent_ledger.Base.{
  ℤ, Bool, String, str_append, Option, none, some, List, [], ◌∷◌, if◌then◌else◌, ltb_ℤ,
}
use agent_ledger.Base.GoMap
use agent_ledger.Base.GoMap.{GoMap}
use agent_ledger.Base.Clock.{Time, Duration, sub}

-- The two totals of ledger.Ledger that the manager reads, at one moment. The flag says that the
-- query failed; the manager logs the error and goes on with the value.
pub record Ledger (A : Type 0) : Type 0 where
  pub get_total_spend : String → Time → Time → A × Bool
  pub get_total_spend_by_tenant : String → Time → Time → A × Bool

-- time.Date at midnight of the day, and of the first of the month, in UTC.
pub record Calendar : Type 0 where
  pub day_start : Time → Time
  pub month_start : Time → Time

-- The instants at which one lookup reads the clock.
pub record Reads : Type 0 where
  pub looked_up : Time
  pub queried : Time
  pub stored : Time

pub record SpendEntry (A : Type 0) : Type 0 where
  pub daily : A
  pub monthly : A
  pub fetched : Time

abbrev pub Cache : Type 0 → Type 0
Cache A = GoMap (SpendEntry A)

module _ {A : Type 0} where
  query : (String → Time → Time → A × Bool) → Calendar → String → Reads → SpendEntry A
  query total cal subject t = record {
    daily = (total subject (cal.day_start t.queried) t.queried).0;
    monthly = (total subject (cal.month_start t.queried) t.queried).0;
    fetched = t.stored;
  }

  -- The common body of getSpend and getTenantSpend: the cache's key and the ledger's differ.
  cached_spend :
      (String → Time → Time → A × Bool)
      → Calendar
      → Duration
      → Cache A
      → String
      → String
      → Reads
      → Cache A × (A × A)
  unfolding query
  cached_spend total cal ttl cache cache_key subject t =
      let e = query total cal subject t in
      let miss : Cache A × (A × A) = (GoMap.put cache cache_key e, (e.daily, e.monthly)) in
      elim (GoMap.get cache cache_key) [
        | none ↦ miss
        | some h ↦
            if ltb_ℤ (sub t.looked_up h.fetched) ttl then (cache, (h.daily, h.monthly)) else miss
      ]

  -- getSpend
  unfoldable pub get_spend :
      Ledger A → Calendar → Duration → Cache A → String → Reads → Cache A × (A × A)
  unfolding cached_spend
  get_spend ledger cal ttl cache api_key_hash t =
      cached_spend ledger.get_total_spend cal ttl cache api_key_hash api_key_hash t

  -- getTenantSpend
  pub get_tenant_spend :
      Ledger A → Calendar → Duration → Cache A → String → Reads → Cache A × (A × A)
  unfolding cached_spend
  get_tenant_spend ledger cal ttl cache tenant_id t =
      cached_spend ledger.get_total_spend_by_tenant cal ttl cache (str_append "tenant:" tenant_id)
        tenant_id t

  -- evictStaleCache
  pub evict_stale_cache : Duration → Cache A → Time → Cache A
  evict_stale_cache ttl cache now = GoMap.delete_where (λ e. ltb_ℤ ttl (sub now e.fetched)) cache
