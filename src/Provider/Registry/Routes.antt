-- ===== src/Provider/Registry/Routes.antt =====
-- The part of a path that decides which provider takes a request.
use agent_ledger.Base.{
  true, false, ◌≡◌, ◌≢◌, refl, ap, sym, ◌∙◌, subst, String, str_eq, eq_iff, str_append, Option,
  none, some, List, [], ◌∷◌, arith, All, Option-cases, Bool-cases, ◌⊎◌, inl, inr,
}
use agent_ledger.Base.Text.{
  strip, has_prefix, clash, strip-clash, first_segment, first_segment-strip, first_segment-append,
  before_slash,
}
use agent_ledger.Access.Keys.{Headers}
use agent_ledger.Provider.Compat.{has_some_prefix, match_compat, native_paths}
use agent_ledger.Provider.Anthropic.{match_anthropic}
use agent_ledger.Provider.Azure.{match_azure}
use agent_ledger.Provider.Gemini.{match_gemini}
use agent_ledger.Provider.Cohere.{match_cohere}
use agent_ledger.Provider.Registry.{Provider, compat, anthropic, azure, gemini, cohere, matches}

-- A name for the paths of a provider: its prefix, or Anthropic's name.
abbrev pub route : Provider → String
route (compat o) = o.path_prefix
route (anthropic u) = "anthropic"
route (azure a) = a.path_prefix
route (gemini u) = "/gemini"
route (cohere u) = "/cohere"

-- A prefix of one segment, other than that of the native paths.
abbrev pub OneSegment : String → Type 0
OneSegment prefix =
    (s : String) × (prefix ≡ str_append "/" s) × (before_slash s ≡ none) × (s ≢ "v1")

-- No prefix, or one of one segment.
abbrev pub WellRouted : Provider → Type 0
WellRouted (compat o) = (o.path_prefix ≡ "") ⊎ OneSegment o.path_prefix
WellRouted (anthropic u) = Unit
WellRouted (azure a) = a.path_prefix ≡ "/azure"
WellRouted (gemini u) = Unit
WellRouted (cohere u) = Unit

prefix-segment :
    (path p s : String)
    → has_prefix path p ≡ true
    → first_segment p ≡ some s
    → first_segment path ≡ some s
prefix-segment path p s h e = elim (Option-cases (strip p path)) [
  | inl n ↦ absurd (ground (arith, h, n))
  | inr (r, n) ↦ first_segment-strip p path r s n e
]

some_prefix-segment :
    (path prefix s : String) (ps : List String)
    → All (λ p. first_segment (str_append prefix p) ≡ some s) ps
    → has_some_prefix path prefix ps ≡ true
    → first_segment path ≡ some s
unfolding has_some_prefix
some_prefix-segment path prefix s [] a h = absurd (ground (arith, h))
some_prefix-segment path prefix s (p ∷ ps) a h =
    elim (Bool-cases (has_prefix path (str_append prefix p))) [
      | inl e ↦ prefix-segment path (str_append prefix p) s e a.0
      | inr e ↦ some_prefix-segment path prefix s ps a.1 (ground (arith, e, h))
    ]

some_prefix-clash :
    (path prefix q : String) (ps : List String)
    → has_prefix path q ≡ true
    → All (λ p. clash q (str_append prefix p) ≡ true) ps
    → has_some_prefix path prefix ps ≡ false
unfolding has_some_prefix
some_prefix-clash path prefix q [] h a = refl
some_prefix-clash path prefix q (p ∷ ps) h a = elim (Option-cases (strip q path)) [
  | inl n ↦ absurd (ground (arith, h, n))
  | inr (r, n) ↦ ground (
    arith,
    strip-clash q (str_append prefix p) path r a.0 n,
    some_prefix-clash path prefix q ps h a.1,
  )
]

-- Where a matching provider's path leads: below its prefix, to a native path of OpenAI, or to
-- Anthropic's.
pub data Leads (p : Provider) (path : String) : Type 0 where
  below :
      (s : String)
      → route p ≡ str_append "/" s
      → s ≢ "v1"
      → first_segment path ≡ some s
      → Leads p path
  native :
      route p ≡ ""
      → first_segment path ≡ some "v1"
      → has_some_prefix path "" native_paths ≡ true
      → Leads p path
  messages :
      route p ≡ "anthropic"
      → first_segment path ≡ some "v1"
      → has_prefix path "/v1/messages" ≡ true
      → Leads p path

v1_native : All (λ p. first_segment (str_append "" p) ≡ some "v1") native_paths
unfolding first_segment strip before_slash
v1_native = (refl, (refl, (refl, (refl, (refl, tt)))))

messages_clash : All (λ p. clash "/v1/messages" (str_append "" p) ≡ true) native_paths
unfolding clash
messages_clash = (refl, (refl, (refl, (refl, (refl, tt)))))

below_segment :
    (s : String)
    → before_slash s ≡ none
    → All (λ p. first_segment (str_append (str_append "/" s) p) ≡ some s) native_paths
unfolding strip
below_segment s h = (
  first_segment-append s _ "v1/chat/" h refl,
  (
    first_segment-append s _ "v1/completions" h refl,
    (
      first_segment-append s _ "v1/embeddings" h refl,
      (
        first_segment-append s _ "v1/models" h refl,
        (first_segment-append s _ "v1/responses" h refl, tt),
      ),
    ),
  ),
)

named : (s : String) → str_eq s "v1" ≡ false → s ≢ "v1"
named s h e = ground (arith, eq_iff s "v1", h, e)

literal_segments :
    (first_segment "/v1/messages" ≡ some "v1")
    × (first_segment "/azure/openai/deployments/" ≡ some "azure")
    × (first_segment "/gemini/" ≡ some "gemini")
    × (first_segment "/cohere/" ≡ some "cohere")
unfolding first_segment strip before_slash
literal_segments = (refl, refl, refl, refl)

pub matches-Leads :
    (p : Provider) (path : String) (r : Headers)
    → WellRouted p
    → matches p path r ≡ true
    → Leads p path
unfolding matches match_compat match_anthropic match_azure match_gemini match_cohere
matches-Leads (compat o) path r (inl e) h =
    let bare = subst (λ q. has_some_prefix path q native_paths ≡ true) e h in
    native e (some_prefix-segment path "" "v1" native_paths v1_native bare) bare
matches-Leads (compat o) path r (inr (s, e, n, v)) h =
    let under = subst (λ q. has_some_prefix path q native_paths ≡ true) e h in
    below s e v
      (some_prefix-segment path (str_append "/" s) s native_paths (below_segment s n) under)
matches-Leads (anthropic u) path r w h = elim (Bool-cases (has_prefix path "/v1/messages")) [
  | inl e ↦ messages refl (prefix-segment path "/v1/messages" "v1" e literal_segments.0) e
  | inr e ↦ absurd (ground (arith, e, h))
]
matches-Leads (azure a) path r w h =
    let under = subst (λ q. has_prefix path (str_append q "/openai/deployments/") ≡ true) w h in
    below "azure" w (named "azure" refl)
      (prefix-segment path "/azure/openai/deployments/" "azure" under literal_segments.1)
matches-Leads (gemini u) path r w h =
    below "gemini" refl (named "gemini" refl)
      (prefix-segment path "/gemini/" "gemini" h literal_segments.2)
matches-Leads (cohere u) path r w h =
    below "cohere" refl (named "cohere" refl)
      (prefix-segment path "/cohere/" "cohere" h literal_segments.3)

same_segment : {t : Option String} {s u : String} → t ≡ some s → t ≡ some u → s ≡ u
same_segment h g = ground (arith, h, g)

Leads-route : (p q : Provider) (path : String) → Leads p path → Leads q path → route p ≡ route q
Leads-route p q path (below s e v h) (below u f w g) =
    e ∙ ap (λ x. str_append "/" x) (same_segment h g) ∙ sym f
Leads-route p q path (below s e v h) (native f g b) = absurd (v (same_segment h g))
Leads-route p q path (below s e v h) (messages f g b) = absurd (v (same_segment h g))
Leads-route p q path (native e h a) (below u f w g) = absurd (w (same_segment g h))
Leads-route p q path (native e h a) (native f g b) = e ∙ sym f
Leads-route p q path (native e h a) (messages f g b) =
    absurd
      (ground (arith, a, some_prefix-clash path "" "/v1/messages" native_paths b messages_clash))
Leads-route p q path (messages e h a) (below u f w g) = absurd (w (same_segment g h))
Leads-route p q path (messages e h a) (native f g b) =
    absurd
      (ground (arith, b, some_prefix-clash path "" "/v1/messages" native_paths a messages_clash))
Leads-route p q path (messages e h a) (messages f g b) = e ∙ sym f

-- Two providers that both match a request have the same route.
pub matches-route :
    (p q : Provider) (path : String) (r : Headers)
    → WellRouted p
    → WellRouted q
    → matches p path r ≡ true
    → matches q path r ≡ true
    → route p ≡ route q
matches-route p q path r v w h g =
    Leads-route p q path (matches-Leads p path r v h) (matches-Leads q path r w g)
