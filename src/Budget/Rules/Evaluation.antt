-- ===== src/Budget/Rules/Evaluation.antt =====
-- How a rule judges what was spent.
use agent_ledger.Base.{
  Bool, true, false, String, eq_iff, ◌≡◌, ◌≢◌, ◌↔◌, ◌⊎◌, arith, ◌≤◌, List, [], ◌∷◌, All, ◌++◌, ap,
  ◌∙◌,
}
use agent_ledger.Base.Float64.{Float64, IsOrdered}
use agent_ledger.Budget.Rules.{
  warn, block, Rule, Config, zero_usd, exceeded, evaluate_rule, soft_decision, merge_with_default,
  match_rule, first_match, rank,
}

module _ (f : Float64) where
  open f use {Carrier, mul, lt, le}

  -- A limit is set and the spend has come to it.
  abbrev pub AtLimit : Carrier → Carrier → Type 0
  AtLimit limit spent = (lt (zero_usd f) limit ≡ true) × (le limit spent ≡ true)

  abbrev pub Exceeds : Rule Carrier → Carrier → Carrier → Type 0
  Exceeds rule daily monthly =
      AtLimit rule.daily_limit_usd daily ⊎ AtLimit rule.monthly_limit_usd monthly

  -- A limit is set, a soft percentage too, and the spend has come to that share of the limit.
  abbrev pub NearLimit : Rule Carrier → Carrier → Carrier → Type 0
  NearLimit rule limit spent =
      (lt (zero_usd f) rule.soft_limit_pct ≡ true)
      × (lt (zero_usd f) limit ≡ true)
      × (le (mul limit rule.soft_limit_pct) spent ≡ true)

  abbrev pub Nears : Rule Carrier → Carrier → Carrier → Type 0
  Nears rule daily monthly =
      NearLimit rule rule.daily_limit_usd daily ⊎ NearLimit rule rule.monthly_limit_usd monthly

  exceeded-Exceeds :
      (rule : Rule Carrier) (daily monthly : Carrier)
      → (exceeded f rule daily monthly ≡ true) ↔ Exceeds rule daily monthly
  exceeded-Exceeds rule daily monthly = ground arith

  soft_decision-Nears :
      (rule : Rule Carrier) (daily monthly : Carrier)
      → lt (zero_usd f) rule.soft_limit_pct ≡ true
      → (soft_decision f rule daily monthly ≡ warn) ↔ Nears rule daily monthly
  unfolding soft_decision
  soft_decision-Nears rule daily monthly p = ground arith

  soft_decision-ne-block :
      (rule : Rule Carrier) (daily monthly : Carrier) → soft_decision f rule daily monthly ≢ block
  unfolding soft_decision
  soft_decision-ne-block rule daily monthly e = ground arith

  -- A rule blocks exactly when a limit is reached and its action is "block". It warns exactly when
  -- a limit is reached and its action is another, or when none is and a soft limit is reached.
  pub evaluate_rule_decides :
      (rule : Rule Carrier) (daily monthly : Carrier)
      → ((evaluate_rule f rule daily monthly).decision ≡ block
          ↔ (Exceeds rule daily monthly × (rule.action ≡ "block")))
        × ((evaluate_rule f rule daily monthly).decision ≡ warn ↔ (
            (Exceeds rule daily monthly × (rule.action ≢ "block"))
            ⊎ ((¬ Exceeds rule daily monthly) × Nears rule daily monthly)))
  unfolding evaluate_rule
  evaluate_rule_decides rule daily monthly = ground (
    arith,
    eq_iff rule.action "block",
    exceeded-Exceeds rule daily monthly,
    soft_decision-Nears rule daily monthly,
    soft_decision-ne-block rule daily monthly,
  )

  -- Where the comparison of amounts is transitive, spending at least as much, today and this month,
  -- never makes the decision of a rule milder: from blocking to a warning or to allowing, or from a
  -- warning to allowing.
  pub rank-evaluate_rule_mono :
      (o : IsOrdered f) (rule : Rule Carrier) (d d' m m' : Carrier)
      → le d d' ≡ true
      → le m m' ≡ true
      → rank (evaluate_rule f rule d m).decision ≤ rank (evaluate_rule f rule d' m').decision
  unfolding evaluate_rule soft_decision
  rank-evaluate_rule_mono o rule d d' m m' p q = ground (
    arith,
    o.le_trans rule.daily_limit_usd d d',
    o.le_trans rule.monthly_limit_usd m m',
    o.le_trans (mul rule.daily_limit_usd rule.soft_limit_pct) d d',
    o.le_trans (mul rule.monthly_limit_usd rule.soft_limit_pct) m m',
  )

  -- A rule without an API key pattern, such as a tenant's, that no rule above it hides is the rule
  -- of every request that brings no API key, of whatever tenant: filepath.Match matches the empty
  -- pattern with the empty name.
  match_rule_keyless :
      (glob : String → String → Bool) (cfg : Config Carrier) (above below : List (Rule Carrier))
      (r : Rule Carrier)
      → glob "" "" ≡ true
      → r.api_key_pattern ≡ ""
      → cfg.rules ≡ above ++ r ∷ below
      → All (λ a. glob a.api_key_pattern "" ≡ false) above
      → match_rule f glob cfg "" ≡ merge_with_default f cfg r
  unfolding match_rule
  match_rule_keyless glob cfg above below r g e s a =
      ap (first_match f glob cfg "") s ∙ skip above a
    where
      skip :
          (rs : List (Rule Carrier))
          → All (λ a. glob a.api_key_pattern "" ≡ false) rs
          → first_match f glob cfg "" (rs ++ r ∷ below) ≡ merge_with_default f cfg r
      skip [] h = rw (e, g, first_match)
      skip (x ∷ xs) h = rw h.0 (skip xs h.1)
