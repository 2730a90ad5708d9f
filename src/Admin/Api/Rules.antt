-- ===== src/Admin/Api/Rules.antt =====
-- The rules that the budget manager enforces, and those that the store holds.
use agent_ledger.Base.{
  Bool, true, false, subst, ◌≡◌, refl, sym, ap, ◌⊎◌, inl, inr, String, eq_iff, Option, none, some,
  List, [], ◌∷◌, arith, Option-cases,
}
use agent_ledger.Base.Float64.{Float64}
use agent_ledger.Budget.Rules.{Rule}
use agent_ledger.Budget.Spend.{Calendar}
use agent_ledger.Budget.Manager.{Manager, update_rules}
use agent_ledger.Ledger.Usage.{CostEntry, CostFilter}
use agent_ledger.Admin.Store.{
  RoundTrips, set_json_encoded, get, get_json, set_json, stored, get_json-set, get_json-set_ne,
}
use agent_ledger.Admin.Types.{
  Handler, Formats, Request, Moment, Reply, rule_created, rules_key, blocked_key,
}
use agent_ledger.Admin.Api.Saving.{Saves, unchanged, saves_rules, saves_patterns, serve-Saves}
use agent_ledger.Admin.Api.{
  serve, handle_create_rule, save_rules, save_patterns, read_rules, reread, reload_rules,
  reload_patterns,
}

module _ (f : Float64) (formats : Formats f.Carrier) (cal : Calendar)
    (query_costs : CostFilter → List (CostEntry f.Carrier) × Bool) where
  -- The rules of a manager, where there is one.
  abbrev pub Enforces : Option (Manager f.Carrier) → List (Rule f.Carrier) → Type 0
  Enforces none saved = Unit
  Enforces (some m) saved = m.config.rules ≡ saved

  -- The manager's rules are those of the store.
  abbrev pub Synced : Handler f.Carrier → Type 0
  Synced h = Enforces h.budget_mgr (stored formats.rules h.rows rules_key)

  same-Synced : (h h' : Handler f.Carrier) → h' ≡ h → Synced h → Synced h'
  same-Synced h h' e s = subst Synced (sym e) s

  reload_rules-Enforces :
      (o : Option (Manager f.Carrier)) (saved : List (Rule f.Carrier))
      → Enforces (reload_rules o saved) saved
  unfolding update_rules
  reload_rules-Enforces none saved = tt
  reload_rules-Enforces (some m) saved = refl

  save_rules-Synced :
      (h : Handler f.Carrier) (t : Moment) (saved : List (Rule f.Carrier)) (reply : Reply f.Carrier)
      → RoundTrips formats.rules
      → Synced h
      → Synced (save_rules f formats cal query_costs h t saved reply).0
  unfolding save_rules
  save_rules-Synced h t saved reply law s =
      elim (Option-cases (set_json formats.rules h.rows t.write_fails rules_key saved)) [
        | inl e ↦
            same-Synced h (save_rules f formats cal query_costs h t saved reply).0
              (ground (arith, e)) s
        | inr (rows, e) ↦
            let read = get_json-set formats.rules h.rows rows t.write_fails rules_key saved law e in
            let m = reload_rules h.budget_mgr saved in
            same-Synced (record h { rows = rows; budget_mgr = m })
              (save_rules f formats cal query_costs h t saved reply).0 (ground (arith, e))
              (subst (Enforces m) (sym (ap (λ x. x.0) read))
                (reload_rules-Enforces h.budget_mgr saved))
      ]

  save_patterns-Synced :
      (h : Handler f.Carrier) (t : Moment) (saved : List String) (reply : Reply f.Carrier)
      → Synced h
      → Synced (save_patterns f formats cal query_costs h t saved reply).0
  unfolding save_patterns
  save_patterns-Synced h t saved reply s =
      elim (Option-cases (set_json formats.patterns h.rows t.write_fails blocked_key saved)) [
        | inl e ↦
            same-Synced h (save_patterns f formats cal query_costs h t saved reply).0
              (ground (arith, e)) s
        | inr (rows, e) ↦
            let read =
              get_json-set_ne formats.patterns formats.rules h.rows rows t.write_fails blocked_key
                rules_key saved (λ q. ground (arith, eq_iff blocked_key rules_key)) e in
            let b =
              reload_patterns h.blocklist (reread f formats cal query_costs rows t) t.reloaded_at in
            same-Synced (record h { rows = rows; blocklist = b })
              (save_patterns f formats cal query_costs h t saved reply).0 (ground (arith, e))
              (subst (Enforces h.budget_mgr) (sym read) s)
      ]

  Saves-Synced :
      (h h' : Handler f.Carrier) (t : Moment)
      → RoundTrips formats.rules
      → Synced h
      → Saves f formats cal query_costs h t h'
      → Synced h'
  Saves-Synced h h' t law s (unchanged e) = subst Synced (sym e) s
  Saves-Synced h h' t law s (saves_rules saved reply e) =
      subst Synced (sym e) (save_rules-Synced h t saved reply law s)
  Saves-Synced h h' t law s (saves_patterns saved reply e) =
      subst Synced (sym e) (save_patterns-Synced h t saved reply s)

  -- Whatever the database fails and whatever the request is, the admin API keeps the budget manager's
  -- rules equal to the stored ones, where the store's JSON round trips.
  pub serve-Synced :
      (h : Handler f.Carrier) (r : Request) (t : Moment)
      → RoundTrips formats.rules
      → Synced h
      → Synced (serve f formats cal query_costs h r t).0
  serve-Synced h r t law s =
      Saves-Synced h (serve f formats cal query_costs h r t).0 t law s
        (serve-Saves f formats cal query_costs h r t)

  read_nothing :
      (h : Handler f.Carrier) (t : Moment)
      → (t.read_fails ≡ true) ⊎ (get h.rows t.read_fails rules_key ≡ some "")
      → (read_rules f formats cal query_costs h t).0 ≡ []
  unfolding read_rules get_json get
  read_nothing h t (inl fails) = ground (arith, fails)
  read_nothing h t (inr missing) = ground (arith, missing)

  save_rules-saved :
      (h : Handler f.Carrier) (t : Moment) (saved : List (Rule f.Carrier)) (reply : Reply f.Carrier)
      (m : Manager f.Carrier) (text : String)
      → RoundTrips formats.rules
      → formats.rules.encode saved ≡ some text
      → t.write_fails ≡ false
      → h.budget_mgr ≡ some m
      → let (h', answer) = save_rules f formats cal query_costs h t saved reply in
        (answer ≡ reply)
        × (stored formats.rules h'.rows rules_key ≡ saved)
        × (h'.budget_mgr ≡ some (update_rules m saved))
  unfolding save_rules
  save_rules-saved h t saved reply m text law e w n =
      let (rows, g) =
        set_json_encoded formats.rules h.rows t.write_fails rules_key saved text e w in
      let read = get_json-set formats.rules h.rows rows t.write_fails rules_key saved law g in
      (ground (arith, g), ground (arith, g, read), ground (arith, g, n))

  -- A rule that is created while the stored rules cannot be read, or before any is stored, is
  -- answered with 201 and becomes the only rule, in the store and in the budget manager, whatever
  -- rules these had before.
  pub create_rule_lost :
      (h : Handler f.Carrier) (r : Request) (t : Moment) (rule : Rule f.Carrier)
      (m : Manager f.Carrier) (text : String)
      → RoundTrips formats.rules
      → formats.rules.encode (rule ∷ []) ≡ some text
      → (t.read_fails ≡ true) ⊎ (get h.rows t.read_fails rules_key ≡ some "")
      → t.write_fails ≡ false
      → formats.rule_body r.body ≡ inr rule
      → h.budget_mgr ≡ some m
      → let (h', reply) = handle_create_rule f formats cal query_costs h r t in
        (reply ≡ rule_created rule)
        × (stored formats.rules h'.rows rules_key ≡ rule ∷ [])
        × (h'.budget_mgr ≡ some (update_rules m (rule ∷ [])))
  unfolding handle_create_rule
  create_rule_lost h r t rule m text law e lost w b n =
      let none_read = read_nothing h t lost in
      let (replied, kept, enforced) =
        save_rules-saved h t (rule ∷ []) (rule_created rule) m text law e w n in
      (
        ground (arith, b, none_read, replied),
        ground (arith, b, none_read, kept),
        ground (arith, b, none_read, enforced),
      )
