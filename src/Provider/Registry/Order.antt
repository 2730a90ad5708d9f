-- ===== src/Provider/Registry/Order.antt =====
-- The order in which Go iterates over the map of extra providers does not matter, where no two
-- providers share a route.
use agent_ledger.Base.{
  Bool, true, false, ◌≡◌, ◌≢◌, refl, ap, sym, ◌∙◌, subst, String, Option, none, some, List, [], ◌∷◌,
  if◌then◌else◌, arith, All, Reorders, same, keep, swap, both, Reorders-append_left, All-Reorders,
  Option-cases, Bool-cases, inl, inr,
}
use agent_ledger.Base.GoMap.{GoMap}
use agent_ledger.Access.Keys.{Headers}
use agent_ledger.Provider.Registry.{
  Provider, ProviderConfig, ProvidersConfig, matches, detect, extra_provider, add_provider,
  extra_providers, new_registry, enabled_only, new_openai, anthropic,
}
use agent_ledger.Provider.Registry.Routes.{route, WellRouted, matches-route}

-- No two of the providers share a route.
abbrev pub Separate : List Provider → Type 0
Separate [] = Unit
Separate (p ∷ ps) = All (λ q. route p ≢ route q) ps × Separate ps

-- The only provider, if any, that may match.
abbrev Only : String → Headers → Provider → List Provider → Type 0
Only path r c ps = All (λ p. matches p path r ≡ true → p ≡ c) ps

none_match :
    (p : Provider) (ps : List Provider) (path : String) (r : Headers)
    → matches p path r ≡ true
    → WellRouted p
    → All WellRouted ps
    → All (λ q. route p ≢ route q) ps
    → Only path r p ps
none_match p [] path r m w ws s = tt
none_match p (q ∷ ps) path r m w ws s =
    (λ h. absurd (s.0 (matches-route p q path r w ws.0 m h)), none_match p ps path r m w ws.1 s.1)

detect-Only :
    (ps : List Provider) (path : String) (r : Headers) (c : Provider)
    → All WellRouted ps
    → Separate ps
    → detect ps path r ≡ some c
    → Only path r c ps
unfolding detect
detect-Only [] path r c w s e = tt
detect-Only (p ∷ ps) path r c w s e = elim (Bool-cases (matches p path r)) [
  | inl m ↦
      let same : p ≡ c = ground (arith, m, e) in
      (λ h. same, subst (λ q. Only path r q ps) same (none_match p ps path r m w.0 w.1 s.0))
  | inr m ↦
      (λ h. absurd (ground (arith, m, h)), detect-Only ps path r c w.1 s.1 (ground (arith, m, e)))
]

some_matches : List Provider → String → Headers → Bool
some_matches [] path r = false
some_matches (p ∷ ps) path r = if matches p path r then true else some_matches ps path r

detect_answers :
    (ps : List Provider) (path : String) (r : Headers) (c : Provider)
    → Only path r c ps
    → detect ps path r ≡ (if some_matches ps path r then some c else none)
unfolding detect some_matches
detect_answers [] path r c o = refl
detect_answers (p ∷ ps) path r c o = ground (arith, o.0, detect_answers ps path r c o.1)

detect-none :
    (ps : List Provider) (path : String) (r : Headers)
    → detect ps path r ≡ none
    → some_matches ps path r ≡ false
unfolding detect some_matches
detect-none [] path r e = refl
detect-none (p ∷ ps) path r e = ground (arith, e, detect-none ps path r)

none-detect :
    (ps : List Provider) (path : String) (r : Headers)
    → some_matches ps path r ≡ false
    → detect ps path r ≡ none
unfolding detect some_matches
none-detect [] path r e = refl
none-detect (p ∷ ps) path r e = ground (arith, e, none-detect ps path r)

some_matches-Reorders :
    {ps qs : List Provider} (path : String) (r : Headers)
    → Reorders ps qs
    → some_matches ps path r ≡ some_matches qs path r
unfolding some_matches
some_matches-Reorders path r same = refl
some_matches-Reorders path r (keep π) = ground (arith, some_matches-Reorders path r π)
some_matches-Reorders path r swap = ground arith
some_matches-Reorders path r (both π ρ) =
    some_matches-Reorders path r π ∙ some_matches-Reorders path r ρ

detect-Reorders :
    {ps qs : List Provider} (path : String) (r : Headers)
    → All WellRouted ps
    → Separate ps
    → Reorders ps qs
    → detect ps path r ≡ detect qs path r
detect-Reorders {ps} {qs} path r w s π = elim (Option-cases (detect ps path r)) [
  | inl e ↦
      e
      ∙ sym (none-detect qs path r (sym (some_matches-Reorders path r π) ∙ detect-none ps path r e))
  | inr (c, e) ↦
      let only = detect-Only ps path r c w s e in
      detect_answers ps path r c only
      ∙ ap (λ b. if b then some c else none) (some_matches-Reorders path r π)
      ∙ sym
          (detect_answers qs path r c (All-Reorders (λ p. matches p path r ≡ true → p ≡ c) π only))
]

add_provider-Reorders :
    (o : Option Provider) {ps qs : List Provider}
    → Reorders ps qs
    → Reorders (add_provider o ps) (add_provider o qs)
add_provider-Reorders none π = π
add_provider-Reorders (some p) π = keep π

add_provider_swap :
    (o k : Option Provider) (ps : List Provider)
    → Reorders (add_provider o (add_provider k ps)) (add_provider k (add_provider o ps))
add_provider_swap none k ps = same
add_provider_swap (some p) none ps = same
add_provider_swap (some p) (some q) ps = swap

extra_providers-Reorders :
    {m n : GoMap ProviderConfig} → Reorders m n → Reorders (extra_providers m) (extra_providers n)
unfolding extra_providers
extra_providers-Reorders same = same
extra_providers-Reorders (keep {x = e} π) =
    add_provider-Reorders (extra_provider e) (extra_providers-Reorders π)
extra_providers-Reorders (swap {x = e} {y = f} {l = m}) =
    add_provider_swap (extra_provider e) (extra_provider f) (extra_providers m)
extra_providers-Reorders (both π ρ) = both (extra_providers-Reorders π) (extra_providers-Reorders ρ)

-- Where the configured providers have no prefix or one of one segment other than v1, and no two
-- share a route, the provider of a request does not depend on the order in which the map of extra
-- providers is iterated.
pub detect-new_registry :
    (cfg : ProvidersConfig) (order : GoMap ProviderConfig) (path : String) (r : Headers)
    → Reorders cfg.extra order
    → All WellRouted (new_registry cfg)
    → Separate (new_registry cfg)
    → detect (new_registry (record cfg { extra = order })) path r ≡ detect (new_registry cfg) path r
unfolding new_registry
detect-new_registry cfg order path r π w s =
    let reordered =
      Reorders-append_left (enabled_only cfg.openai.enabled (new_openai cfg.openai.upstream)) (
        Reorders-append_left (enabled_only cfg.anthropic.enabled (anthropic cfg.anthropic.upstream))
          (extra_providers-Reorders π)) in
    sym (detect-Reorders path r w s reordered)
