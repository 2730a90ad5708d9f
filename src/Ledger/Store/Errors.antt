-- ===== src/Ledger/Store/Errors.antt =====
-- The statistics of errors.
use agent_ledger.Base.{
  ap, ℕ, ◌+◌, ◌≤◌, ℤ, pos, ◌≤ℤ◌, leb_ℤ, ◌+ℤ◌, Bool, ◌&&◌, ◌≡◌, refl, ◌⊎◌, inl, inr, String, Option,
  none, some, List, [], ◌∷◌, length, arith,
}
use agent_ledger.Base.Float64.{Float64}
use agent_ledger.Base.Clock.{Time}
use agent_ledger.Ledger.Usage.{UsageRecord}
use agent_ledger.Ledger.Store.{
  Database, Sql, ErrorStats, where_rows, in_window, of_tenant, count_where, is_429, error_stats,
  query_error_stats,
}

pos_sum-le : (a b c : ℕ) → a + b ≤ c → pos a +ℤ pos b ≤ℤ pos c
unfolding ◌+ℤ◌
pos_sum-le a b c h = ground (arith, h)

module _ (f : Float64) (sql : Sql f.Carrier) where
  count_where-length :
      (test : ℤ → Bool) (us : List (UsageRecord f.Carrier))
      → count_where f sql test us ≡ length (where_rows (λ u. test u.status_code) us)
  unfolding count_where where_rows
  count_where-length test [] = refl
  count_where-length test (u ∷ us) = ground (arith, count_where-length test us)

  count_where-le :
      (test : ℤ → Bool) (us : List (UsageRecord f.Carrier)) → count_where f sql test us ≤ length us
  unfolding count_where
  count_where-le test [] = omega arith
  count_where-le test (u ∷ us) = ground (arith, count_where-le test us)

  count_where-apart :
      (us : List (UsageRecord f.Carrier))
      → count_where f sql is_429 us + count_where f sql (λ code. leb_ℤ (pos 500) code) us
        ≤ count_where f sql (λ code. leb_ℤ (pos 400) code) us
  unfolding count_where
  count_where-apart [] = omega arith
  count_where-apart (u ∷ us) = ground (arith, count_where-apart us)

  -- The rows that QueryErrorStats selects.
  abbrev pub selected : Database f.Carrier → Time → Time → String → List (UsageRecord f.Carrier)
  selected db since until tenant =
      where_rows (λ u. in_window since until u && of_tenant tenant u) db.usage_records

  -- The number of rows whose status passes a test.
  abbrev pub number : (ℤ → Bool) → List (UsageRecord f.Carrier) → ℤ
  number test rows = pos (length (where_rows (λ u. test u.status_code) rows))

  -- What is answered for rows that were selected.
  abbrev pub Counted : List (UsageRecord f.Carrier) → Option (ErrorStats f.Carrier) → Type 0
  Counted rows answer =
      ((rows ≡ []) × (answer ≡ none))
      ⊎ ((stats : ErrorStats f.Carrier) × (answer ≡ some stats)
          × (stats.total_requests ≡ pos (length rows))
          × (stats.error_requests ≡ number (λ code. leb_ℤ (pos 400) code) rows)
          × (stats.count_429 ≡ number (λ code. leb_ℤ (pos 429) code && leb_ℤ code (pos 429)) rows)
          × (stats.count_5xx ≡ number (λ code. leb_ℤ (pos 500) code) rows)
          × (stats.error_rate
              ≡ f.div (f.of_int stats.error_requests) (f.of_int stats.total_requests))
          × (stats.count_429 +ℤ stats.count_5xx ≤ℤ stats.error_requests)
          × (stats.error_requests ≤ℤ stats.total_requests))

  error_stats-Counted :
      (rows : List (UsageRecord f.Carrier)) → Counted rows (error_stats f sql rows)
  unfolding error_stats
  error_stats-Counted [] = inl (refl, refl)
  error_stats-Counted (u ∷ us) = inr (
    _,
    refl,
    refl,
    ap pos (count_where-length (λ code. leb_ℤ (pos 400) code) (u ∷ us)),
    ap pos (count_where-length is_429 (u ∷ us)),
    ap pos (count_where-length (λ code. leb_ℤ (pos 500) code) (u ∷ us)),
    refl,
    pos_sum-le _ _ _ (count_where-apart (u ∷ us)),
    ground (arith, count_where-le (λ code. leb_ℤ (pos 400) code) (u ∷ us)),
  )

  -- The statistics of a window without requests are an error. Those of any other count its requests,
  -- those of them with a status from 400 on, those with 429, and those with a status from 500 on;
  -- the rate of errors is the quotient of the first two, and the errors are at most the requests
  -- and at least those with 429 and from 500 on together.
  pub query_error_stats-Counted :
      (db : Database f.Carrier) (since until : Time) (tenant : String)
      → Counted (selected db since until tenant) (query_error_stats f sql db since until tenant)
  unfolding query_error_stats
  query_error_stats-Counted db since until tenant =
      error_stats-Counted (selected db since until tenant)
