-- ===== src/Provider/Registry/Mux.antt =====
-- cmd/agentledger/serve.go: the routes of the HTTP server that lead to the proxy, but /health, which
-- no provider takes.
use agent_ledger.Base.{
  Bool, true, false, not, ◌≡◌, refl, ap, sym, ◌∙◌, subst, String, str_eq, eq_iff, str_append,
  Option, none, some, List, [], ◌∷◌, ◌++◌, ◌||◌, arith, All, Option-cases, Bool-cases, inl, inr,
}
use text.Mathlib.TextLemmas.{append_assoc}
use agent_ledger.Base.GoMap.{GoMap}
use agent_ledger.Base.Text.{has_prefix, has_prefix-append}
use agent_ledger.Access.Keys.{Headers}
use agent_ledger.Provider.Compat.{has_some_prefix, match_compat, native_paths}
use agent_ledger.Provider.Anthropic.{match_anthropic}
use agent_ledger.Provider.Azure.{match_azure, new_azure}
use agent_ledger.Provider.Gemini.{match_gemini}
use agent_ledger.Provider.Cohere.{match_cohere}
use agent_ledger.Provider.Registry.{
  Provider, ProviderConfig, ProvidersConfig, compat, anthropic, azure, gemini, cohere, matches,
  path_prefix, detect, contains, prefixes_from, path_prefixes, new_registry, new_provider_by_type,
  extra_provider, extra_providers, add_provider, enabled_only, new_openai,
}

-- The patterns for the prefixes of the registry.
pub with_slash : List String → List String
with_slash [] = []
with_slash (p ∷ ps) = str_append p "/" ∷ with_slash ps

-- The patterns with all paths below them that lead to the proxy.
pub proxy_routes : List Provider → List String
proxy_routes ps = "/v1/" ∷ with_slash (path_prefixes ps)

-- A pattern that ends in a slash takes the paths that begin with it.
pub any_under : List String → String → Bool
any_under [] path = false
any_under (p ∷ ps) path = has_prefix path p || any_under ps path

contains-any_under :
    (x path : String) (seen : List String)
    → has_prefix path (str_append x "/") ≡ true
    → contains x seen ≡ true
    → any_under (with_slash seen) path ≡ true
unfolding contains any_under with_slash
contains-any_under x path [] h c = ground (arith, c)
contains-any_under x path (y ∷ ys) h c = elim (Bool-cases (str_eq y x)) [
  | inl e ↦
      let g = subst (λ s. has_prefix path (str_append s "/") ≡ true) (sym ((eq_iff y x).0 e)) h in
      ground (arith, g)
  | inr e ↦ ground (arith, contains-any_under x path ys h (ground (arith, e, c)))
]

covered :
    (seen : List String) (ps : List Provider) (path x : String) (r : Headers) (c : Provider)
    → detect ps path r ≡ some c
    → path_prefix c ≡ some x
    → str_eq x "" ≡ false
    → has_prefix path (str_append x "/") ≡ true
    → (any_under (with_slash seen) path || any_under (with_slash (prefixes_from seen ps)) path)
      ≡ true
unfolding detect prefixes_from any_under with_slash
covered seen [] path x r c d p e h = ground (arith, d)
covered seen (q ∷ ps) path x r c d p e h = elim (Bool-cases (matches q path r)) [
  | inl m ↦
      let same : q ≡ c = ground (arith, m, d) in
      let mine = ap path_prefix same ∙ p in
      ground (arith, mine, e, h, contains-any_under x path seen h)
  | inr m ↦
      let later : detect ps path r ≡ some c = ground (arith, m, d) in
      let skip = covered seen ps path x r c later p e h in
      elim (Option-cases (path_prefix q)) [
        | inl n ↦ ground (arith, n, skip)
        | inr (y, n) ↦ ground (arith, n, skip, covered (y ∷ seen) ps path x r c later p e h)
      ]
]

slash-covered :
    (ps : List Provider) (path x : String) (r : Headers) (c : Provider)
    → detect ps path r ≡ some c
    → path_prefix c ≡ some x
    → str_eq x "" ≡ false
    → has_prefix path (str_append x "/") ≡ true
    → any_under (proxy_routes ps) path ≡ true
unfolding any_under proxy_routes path_prefixes with_slash
slash-covered ps path x r c d p e h = ground (arith, covered [] ps path x r c d p e h)

-- A path below a prefix and a native path is below the prefix and /v1/.
below_v1 :
    (path prefix rest : String)
    → has_prefix path (str_append prefix (str_append "/v1/" rest)) ≡ true
    → has_prefix path (str_append prefix "/v1/") ≡ true
below_v1 path prefix rest e =
    has_prefix-append (str_append prefix "/v1/") rest path
      (subst (λ s. has_prefix path s ≡ true) (sym (append_assoc prefix "/v1/" rest)) e)

some_prefix-v1 :
    (path prefix : String)
    → has_some_prefix path prefix native_paths ≡ true
    → has_prefix path (str_append prefix "/v1/") ≡ true
unfolding has_some_prefix
some_prefix-v1 path prefix h = ground (
  arith,
  h,
  below_v1 path prefix "chat/",
  below_v1 path prefix "completions",
  below_v1 path prefix "embeddings",
  below_v1 path prefix "models",
  below_v1 path prefix "responses",
)

compat-covered :
    (ps : List Provider) (path x : String) (r : Headers) (c : Provider)
    → detect ps path r ≡ some c
    → path_prefix c ≡ some x
    → has_prefix path (str_append x "/v1/") ≡ true
    → any_under (proxy_routes ps) path ≡ true
unfolding any_under proxy_routes
compat-covered ps path x r c d p h = elim (Bool-cases (str_eq x "")) [
  | inl e ↦
      let g = subst (λ s. has_prefix path (str_append s "/v1/") ≡ true) ((eq_iff x "").0 e) h in
      ground (arith, g)
  | inr e ↦ slash-covered ps path x r c d p e (
      has_prefix-append (str_append x "/") "v1/" path
        (subst (λ s. has_prefix path s ≡ true) (sym (append_assoc x "/" "v1/")) h))
]

-- An Azure provider has a prefix.
azure_prefix : Provider → String
azure_prefix (azure a) = a.path_prefix
azure_prefix (compat o) = "/"
azure_prefix (anthropic u) = "/"
azure_prefix (gemini u) = "/"
azure_prefix (cohere u) = "/"

matches-covered :
    (ps : List Provider) (path : String) (r : Headers) (c : Provider)
    → detect ps path r ≡ some c
    → matches c path r ≡ true
    → str_eq (azure_prefix c) "" ≡ false
    → any_under (proxy_routes ps) path ≡ true
unfolding matches path_prefix azure_prefix match_compat match_anthropic match_azure match_gemini
    match_cohere any_under proxy_routes
matches-covered ps path r (compat o) d m a =
    compat-covered ps path o.path_prefix r (compat o) d refl (some_prefix-v1 path o.path_prefix m)
matches-covered ps path r (anthropic u) d m a =
    ground (arith, m, has_prefix-append "/v1/" "messages" path)
matches-covered ps path r (azure z) d m a =
    slash-covered ps path z.path_prefix r (azure z) d refl a (
      has_prefix-append (str_append z.path_prefix "/") "openai/deployments/" path (
        subst (λ s. has_prefix path s ≡ true)
          (sym (append_assoc z.path_prefix "/" "openai/deployments/")) m))
matches-covered ps path r (gemini u) d m a =
    slash-covered ps path "/gemini" r (gemini u) d refl refl m
matches-covered ps path r (cohere u) d m a =
    slash-covered ps path "/cohere" r (cohere u) d refl refl m

detect-matches :
    (ps : List Provider) (path : String) (r : Headers) (c : Provider)
    → detect ps path r ≡ some c
    → matches c path r ≡ true
unfolding detect
detect-matches [] path r c d = ground (arith, d)
detect-matches (q ∷ ps) path r c d = elim (Bool-cases (matches q path r)) [
  | inl m ↦ let same : q ≡ c = ground (arith, m, d) in subst (λ z. matches z path r ≡ true) same m
  | inr m ↦ detect-matches ps path r c (ground (arith, m, d))
]

abbrev Prefixed : Provider → Type 0
Prefixed p = str_eq (azure_prefix p) "" ≡ false

detect-All :
    (ps : List Provider) (path : String) (r : Headers) (c : Provider)
    → All Prefixed ps
    → detect ps path r ≡ some c
    → Prefixed c
unfolding detect
detect-All [] path r c a d = absurd (ground (arith, d))
detect-All (q ∷ ps) path r c a d = elim (Bool-cases (matches q path r)) [
  | inl m ↦ let same : q ≡ c = ground (arith, m, d) in subst Prefixed same a.0
  | inr m ↦ detect-All ps path r c a.1 (ground (arith, m, d))
]

no_bare_azure : Option Provider → Bool
no_bare_azure none = true
no_bare_azure (some p) = not (str_eq (azure_prefix p) "")

by_type-no_bare :
    (name typ upstream prefix : String)
    → no_bare_azure (new_provider_by_type name typ upstream prefix) ≡ true
unfolding new_provider_by_type new_azure azure_prefix no_bare_azure
by_type-no_bare name typ upstream prefix = ground arith

add_provider-Prefixed :
    (o : Option Provider) (ps : List Provider)
    → no_bare_azure o ≡ true
    → All Prefixed ps
    → All Prefixed (add_provider o ps)
unfolding no_bare_azure
add_provider-Prefixed none ps h a = a
add_provider-Prefixed (some p) ps h a = (ground (arith, h), a)

extra-Prefixed : (m : GoMap ProviderConfig) → All Prefixed (extra_providers m)
unfolding extra_providers extra_provider no_bare_azure
extra-Prefixed [] = tt
extra-Prefixed ((name, pc) ∷ m) =
    add_provider-Prefixed (extra_provider (name, pc)) (extra_providers m)
      (ground (arith, by_type-no_bare name pc.type pc.upstream pc.path_prefix)) (extra-Prefixed m)

enabled-Prefixed :
    (b : Bool) (p : Provider) (ps : List Provider)
    → Prefixed p
    → All Prefixed ps
    → All Prefixed (enabled_only b p ++ ps)
enabled-Prefixed true p ps h a = (h, a)
enabled-Prefixed false p ps h a = a

new_registry-Prefixed : (cfg : ProvidersConfig) → All Prefixed (new_registry cfg)
unfolding new_registry azure_prefix
new_registry-Prefixed cfg =
    enabled-Prefixed cfg.openai.enabled (new_openai cfg.openai.upstream) _ refl (
      enabled-Prefixed cfg.anthropic.enabled (anthropic cfg.anthropic.upstream) _ refl
        (extra-Prefixed cfg.extra))

-- Every path that a provider of a registry takes begins with one of the patterns under which the
-- server hands requests to the proxy.
pub detect-routed :
    (cfg : ProvidersConfig) (path : String) (r : Headers) (c : Provider)
    → detect (new_registry cfg) path r ≡ some c
    → any_under (proxy_routes (new_registry cfg)) path ≡ true
detect-routed cfg path r c d =
    matches-covered (new_registry cfg) path r c d (detect-matches (new_registry cfg) path r c d)
      (detect-All (new_registry cfg) path r c (new_registry-Prefixed cfg) d)
