-- ===== src/Ledger/Store/Spending.antt =====
-- The totals of the store, against an account of the records that are written to it.
use agent_ledger.Base.{
  Bool, true, false, not, ◌&&◌, ◌||◌, ◌≡◌, refl, ap, sym, subst, String, str_eq, eq_iff, none, some,
  List, [], ◌∷◌, ◌++◌, if◌then◌else◌, arith, Bool-cases, inl, inr,
}
use mathlib.Core.List.{append-nil, append_assoc}
use agent_ledger.Base.Float64.{Float64}
use agent_ledger.Base.Clock.{Time}
use agent_ledger.Agent.Session.{Session}
use agent_ledger.Ledger.Usage.{UsageRecord}
use agent_ledger.Ledger.Store.{
  Database, Sql, costs_of, has_id, record_row, where_rows, in_window, total_of, total_where,
  get_total_spend, get_total_spend_by_tenant,
}

-- Whether an id is on a list.
unfoldable pub listed : String → List String → Bool
listed id [] = false
listed id (x ∷ xs) = let later = listed id xs in str_eq x id || later

module _ {A : Type 0} where
  -- Records written one after another, as a worker of the recorder does: where the store refuses
  -- one, it goes on with the next.
  unfoldable pub record_each : Database A → List (UsageRecord A) → Database A
  record_each db [] = db
  record_each db (u ∷ us) = elim (record_row db u) [
    | none ↦ record_each db us
    | some next ↦ record_each next us
  ]

  -- What a name has spent in a window, as a list of costs: each record whose id has not been seen
  -- before counts once.
  unfoldable pub spendings :
      (UsageRecord A → String) → List String → List (UsageRecord A) → String → Time → Time → List A
  spendings name seen [] subject since until = []
  spendings name seen (u ∷ us) subject since until =
      let later = spendings name (u.id ∷ seen) us subject since until in
      if not (listed u.id seen) && str_eq (name u) subject && in_window since until u
      then u.cost_usd ∷ later
      else later

  -- The costs of the rows with a name in a window.
  abbrev selected_costs :
      (UsageRecord A → String) → List (UsageRecord A) → String → Time → Time → List A
  selected_costs name rows subject since until =
      costs_of (where_rows (λ u. str_eq (name u) subject && in_window since until u) rows)

  has_id-append :
      (id : String) (rows : List (UsageRecord A)) (u : UsageRecord A)
      → has_id id (rows ++ u ∷ []) ≡ (str_eq u.id id || has_id id rows)
  unfolding has_id
  has_id-append id [] u = ground arith
  has_id-append id (v ∷ rows) u = ground (arith, has_id-append id rows u)

  selected_costs-append :
      (name : UsageRecord A → String) (rows : List (UsageRecord A)) (u : UsageRecord A)
      (subject : String) (since until : Time)
      → selected_costs name (rows ++ u ∷ []) subject since until
        ≡ selected_costs name rows subject since until
          ++ (if str_eq (name u) subject && in_window since until u then u.cost_usd ∷ [] else [])
  unfolding where_rows
  selected_costs-append name [] u subject since until = ground arith
  selected_costs-append name (v ∷ rows) u subject since until =
      ground (arith, selected_costs-append name rows u subject since until)

  -- The rows' ids are those that have been seen.
  abbrev Seen : List String → List (UsageRecord A) → Type 0
  Seen seen rows = (id : String) → listed id seen ≡ has_id id rows

  Seen-refused :
      (seen : List String) (rows : List (UsageRecord A)) (u : UsageRecord A)
      → has_id u.id rows ≡ true
      → Seen seen rows
      → Seen (u.id ∷ seen) rows
  unfolding listed
  Seen-refused seen rows u h s id = elim (Bool-cases (str_eq u.id id)) [
    | inl e ↦
        (let found : has_id id rows ≡ true =
            subst (λ x. has_id x rows ≡ true) ((eq_iff u.id id).0 e) h in
          ground (arith, e, found))
    | inr e ↦ ground (arith, e, s id)
  ]

  Seen-written :
      (seen : List String) (rows : List (UsageRecord A)) (u : UsageRecord A)
      → Seen seen rows
      → Seen (u.id ∷ seen) (rows ++ u ∷ [])
  unfolding listed
  Seen-written seen rows u s id = ground (arith, has_id-append id rows u, s id)

  selected_costs-record_each :
      (name : UsageRecord A → String) (seen : List String) (db : Database A)
      (us : List (UsageRecord A)) (subject : String) (since until : Time)
      → Seen seen db.usage_records
      → selected_costs name (record_each db us).usage_records subject since until
        ≡ selected_costs name db.usage_records subject since until
          ++ spendings name seen us subject since until
  unfolding record_each record_row spendings
  selected_costs-record_each name seen db [] subject since until s = sym (append-nil _)
  selected_costs-record_each name seen db (u ∷ us) subject since until s =
      elim (Bool-cases (has_id u.id db.usage_records)) [
        | inl h ↦
            let rest =
              selected_costs-record_each name (u.id ∷ seen) db us subject since until
                (Seen-refused seen db.usage_records u h s) in
            ground (arith, h, s u.id, rest)
        | inr h ↦
            let next : Database A = record db { usage_records = db.usage_records ++ u ∷ [] } in
            let rest =
              selected_costs-record_each name (u.id ∷ seen) next us subject since until
                (Seen-written seen db.usage_records u s) in
            (let before = selected_costs name db.usage_records subject since until in
              let later = spendings name (u.id ∷ seen) us subject since until in
              ground (
                arith,
                h,
                s u.id,
                rest,
                selected_costs-append name db.usage_records u subject since until,
                append_assoc before (u.cost_usd ∷ []) later,
                append_assoc before [] later,
              ))
      ]

module _ (f : Float64) (sql : Sql f.Carrier) where
  -- After a list of records has been written to an empty table, the spending that the store answers
  -- for a key, and for a tenant, in a window is SQLite's sum, 0 for none, of the costs of just the
  -- records of that key or tenant with a timestamp in the window, in their order, where of the
  -- records with one id only the first counts.
  pub get_total_spend-record_each :
      (sessions : List (Session f.Carrier)) (us : List (UsageRecord f.Carrier)) (subject : String)
      (since until : Time)
      → let db = record_each (record { usage_records = []; agent_sessions = sessions }) us in
        (get_total_spend f sql db subject since until
          ≡ total_of f sql (spendings (λ u. u.api_key_hash) [] us subject since until))
        × (get_total_spend_by_tenant f sql db subject since until
            ≡ total_of f sql (spendings (λ u. u.tenant_id) [] us subject since until))
  unfolding get_total_spend get_total_spend_by_tenant total_where where_rows listed has_id
  get_total_spend-record_each sessions us subject since until =
      let db : Database f.Carrier = record { usage_records = []; agent_sessions = sessions } in
      (
        ap (total_of f sql) (
            selected_costs-record_each (λ u. u.api_key_hash) [] db us subject since until
              (λ id. refl)),
        ap (total_of f sql) (
            selected_costs-record_each (λ u. u.tenant_id) [] db us subject since until
              (λ id. refl)),
      )
