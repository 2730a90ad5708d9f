-- ===== src/Provider/Registry/Rewriting.antt =====
-- Below its prefix, a provider takes the paths that OpenAI has without one, and hands them on.
use agent_ledger.Base.{
  ◌≡◌, refl, ap, ◌∙◌, String, str_eq, eq_iff, str_append, List, [], ◌∷◌, if◌then◌else◌, arith,
  Bool-cases, inl, inr,
}
use text.Mathlib.TextLemmas.{nil-append}
use agent_ledger.Base.Text.{strip-append, strip-append_left, trim_prefix}
use agent_ledger.Provider.Compat.{
  OpenAiCompatible, has_some_prefix, match_compat, rewrite_compat, native_paths,
}

has_some_prefix-append :
    (prefix path : String) (ps : List String)
    → has_some_prefix (str_append prefix path) prefix ps ≡ has_some_prefix path "" ps
unfolding has_some_prefix
has_some_prefix-append prefix path [] = refl
has_some_prefix-append prefix path (p ∷ ps) = ground (
  arith,
  strip-append_left prefix p (str_append prefix path),
  strip-append prefix path,
  nil-append p,
  has_some_prefix-append prefix path ps,
)

trim_prefix-append :
    (prefix path : String)
    → (if str_eq prefix ""
        then str_append prefix path
        else trim_prefix (str_append prefix path) prefix)
      ≡ path
trim_prefix-append prefix path = elim (Bool-cases (str_eq prefix "")) [
  | inl e ↦ rw e (ap (λ q. str_append q path) ((eq_iff prefix "").0 e) ∙ nil-append path)
  | inr e ↦ rw e (ground (arith, strip-append prefix path))
]

-- A client that puts a provider's prefix before a native path reaches this provider exactly where
-- the native path is one of OpenAI's, and the upstream then gets the native path.
pub rewrite_compat-match :
    (o : OpenAiCompatible) (path : String)
    → (match_compat o (str_append o.path_prefix path)
        ≡ match_compat (record o { path_prefix = "" }) path)
      × (rewrite_compat o (str_append o.path_prefix path) ≡ path)
unfolding match_compat rewrite_compat
rewrite_compat-match o path =
    (has_some_prefix-append o.path_prefix path native_paths, trim_prefix-append o.path_prefix path)
