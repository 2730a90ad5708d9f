-- ===== src/Proxy/Rewrite.antt =====
-- internal/proxy/proxy.go: rewrite, the request that the upstream gets. The parser of URLs is a
-- parameter; paths have no escaped bytes.
use Prim.Native.Char.{code}
use agent_ledger.Base.{
  Bool, true, false, ◌&&◌, ◌||◌, ◌==◌, ◌≡◌, ◌≢◌, refl, ◌∙◌, ap, sym, subst, eq_iff, All, List, [],
  ◌∷◌, String, str_eq, str_append, Option, none, some, if◌then◌else◌, arith,
}
use text.Mathlib.TextLemmas.{nil-append}
use agent_ledger.Base.Text.{strip-append, strip-clash, clash, has_prefix, trim_prefix}
use agent_ledger.Access.Keys.{
  Headers, strip_agent_headers, delete_headers, first_key, extract_api_key, extract_agent_headers,
}
use agent_ledger.Provider.Compat.{OpenAiCompatible, rewrite_compat}
use agent_ledger.Provider.Registry.Rewriting.{rewrite_compat-match}
use agent_ledger.Provider.Registry.{Provider, compat, rewrite_path, upstream_url}

-- url.URL, as far as the proxy uses it.
pub record Url : Type 0 where
  pub host : String
  pub path : String

pub record Outgoing : Type 0 where
  pub host : String
  pub path : String
  pub headers : Headers

unfoldable pub ends_slash : String → Bool
ends_slash String.[] = false
ends_slash (String.◌∷◌ c String.[]) = code c == b'/'
ends_slash (String.◌∷◌ c (String.◌∷◌ d s)) = ends_slash (String.◌∷◌ d s)

-- How SetURL of net/http/httputil joins the upstream's path and the request's.
unfoldable pub join_path : String → String → String
join_path a b =
    if ends_slash a && has_prefix b "/"
    then str_append a (trim_prefix b "/")
    else if ends_slash a || has_prefix b "/"
    then str_append a b
    else str_append a (str_append "/" b)

-- StripAgentHeaders, and Header.Del of Accept-Encoding.
unfoldable pub outgoing_headers : Headers → Headers
outgoing_headers r =
    let stripped = strip_agent_headers r in
    record stripped { header = λ h. if str_eq h "Accept-Encoding" then "" else stripped.header h }

extract_api_key-outgoing : (r : Headers) → extract_api_key (outgoing_headers r) ≡ extract_api_key r
unfolding extract_api_key first_key outgoing_headers strip_agent_headers delete_headers
extract_api_key-outgoing r = refl

-- The headers that are not for the upstream.
abbrev pub private_headers : List String
private_headers =
    "X-Agent-Id" ∷ "X-Agent-Session" ∷ "X-Agent-User" ∷ "X-Agent-Task" ∷ "X-Agent-Session-End"
    ∷ "Accept-Encoding" ∷ []

private_headers-outgoing :
    (r : Headers) → All (λ h. (outgoing_headers r).header h ≡ "") private_headers
unfolding outgoing_headers strip_agent_headers delete_headers
private_headers-outgoing r = (refl, (refl, (refl, (refl, (refl, (refl, tt))))))

header-outgoing :
    (r : Headers) (name : String)
    → All (λ h. name ≢ h) private_headers
    → (outgoing_headers r).header name ≡ r.header name
unfolding outgoing_headers strip_agent_headers delete_headers
header-outgoing r name a = ground (
  arith,
  a.0,
  a.1.0,
  a.1.1.0,
  a.1.1.1.0,
  a.1.1.1.1.0,
  a.1.1.1.1.1.0,
  eq_iff name "X-Agent-Id",
  eq_iff name "X-Agent-Session",
  eq_iff name "X-Agent-User",
  eq_iff name "X-Agent-Task",
  eq_iff name "X-Agent-Session-End",
  eq_iff name "Accept-Encoding",
)

extract_agent_headers-outgoing :
    (r : Headers)
    → extract_agent_headers (outgoing_headers r) ≡ record {
      agent_id = r.query "_agent_id";
      session_id = r.query "_agent_session";
      user_id = r.query "_agent_user";
      task = r.query "_agent_task";
    }
unfolding extract_agent_headers outgoing_headers strip_agent_headers delete_headers
extract_agent_headers-outgoing r = refl

join_path-root : (b : String) → has_prefix b "/" ≡ true → join_path "" b ≡ b
unfolding join_path ends_slash
join_path-root b h = ground (arith, h, nil-append b)

module _ (parse_url : String → Option Url) where
  -- rewrite, of a request that a provider takes.
  unfoldable pub rewrite : Provider → Outgoing → Outgoing
  rewrite prov out = elim (parse_url (upstream_url prov)) [
    | none ↦ out
    | some url ↦ record {
      host = url.host;
      path = rewrite_path prov (join_path url.path out.path);
      headers = outgoing_headers out.headers;
    }
  ]

  sent :
      (o : OpenAiCompatible) (out : Outgoing) (host : String)
      → parse_url o.upstream ≡ some (record { host = host; path = "" })
      → rewrite (compat o) out ≡ record {
        host = host;
        path = rewrite_compat o (join_path "" out.path);
        headers = outgoing_headers out.headers;
      }
  unfolding rewrite rewrite_path upstream_url
  sent o out host parsed = ground (arith, parsed)

  -- Where the upstream's URL has no path, the upstream gets the native path that stands behind the
  -- provider's prefix, the caller's API key, and no agent identity but that of the query. None of
  -- the five agent headers reaches it, nor does Accept-Encoding; every other header does, unchanged.
  pub rewrite_native :
      (o : OpenAiCompatible) (out : Outgoing) (native host name : String)
      → parse_url o.upstream ≡ some (record { host = host; path = "" })
      → has_prefix (str_append o.path_prefix native) "/" ≡ true
      → out.path ≡ str_append o.path_prefix native
      → All (λ h. name ≢ h) private_headers
      → let got = rewrite (compat o) out in
        (got.host ≡ host)
        × (got.path ≡ native)
        × (extract_api_key got.headers ≡ extract_api_key out.headers)
        × (extract_agent_headers got.headers ≡ record {
          agent_id = out.headers.query "_agent_id";
          session_id = out.headers.query "_agent_session";
          user_id = out.headers.query "_agent_user";
          task = out.headers.query "_agent_task";
        })
        × All (λ h. got.headers.header h ≡ "") private_headers
        × (got.headers.header name ≡ out.headers.header name)
  unfolding rewrite rewrite_path upstream_url
  rewrite_native o out native host name parsed slash path other =
      let joined =
        ap (join_path "") path ∙ join_path-root (str_append o.path_prefix native) slash in
      (
        ground (arith, parsed),
        ap (λ x. x.path) (sent o out host parsed)
            ∙ ap (rewrite_compat o) joined
            ∙ (rewrite_compat-match o native).1,
        ap (λ x. extract_api_key x.headers) (sent o out host parsed)
            ∙ extract_api_key-outgoing out.headers,
        ap (λ x. extract_agent_headers x.headers) (sent o out host parsed)
            ∙ extract_agent_headers-outgoing out.headers,
        subst (λ x. All (λ h. x.headers.header h ≡ "") private_headers)
            (sym (sent o out host parsed)) (private_headers-outgoing out.headers),
        ap (λ x. x.headers.header name) (sent o out host parsed)
            ∙ header-outgoing out.headers name other,
      )

  -- Where the upstream's URL has a path that differs from the provider's prefix at some place, and
  -- does not end in a slash, the prefix is not removed: the upstream gets its own path, the prefix
  -- and the native path.
  pub rewrite_prefixed :
      (o : OpenAiCompatible) (out : Outgoing) (native : String) (url : Url)
      → parse_url o.upstream ≡ some url
      → ends_slash url.path ≡ false
      → clash url.path o.path_prefix ≡ true
      → has_prefix (str_append o.path_prefix native) "/" ≡ true
      → out.path ≡ str_append o.path_prefix native
      → (rewrite (compat o) out).path ≡ str_append url.path (str_append o.path_prefix native)
  unfolding rewrite rewrite_path rewrite_compat upstream_url join_path
  rewrite_prefixed o out native url parsed ends apart slash path =
      let whole = str_append url.path (str_append o.path_prefix native) in
      let found = strip-append url.path (str_append o.path_prefix native) in
      let unmatched =
        strip-clash url.path o.path_prefix whole (str_append o.path_prefix native) apart found in
      ground (arith, parsed, ends, slash, path, unmatched)
