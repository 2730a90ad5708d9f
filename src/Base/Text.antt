-- ===== src/Base/Text.antt =====
-- Package strings on texts, as far as prefixes go: HasPrefix, TrimPrefix.
use Prim.Native.Char.{code}
use Prim.Native.String
use Prim.Native.String.{String}
use Prim.Native.Nat.{ℕ}
use mathlib.Core.Path.{◌≡◌, refl, ap, ◌∙◌, subst}
use mathlib.Core.Logic.{inl, inr}
use mathlib.Core.Bool.{Bool, true, false, ◌||◌}
use mathlib.Core.Option.{Option, none, some}
use mathlib.Core.List.{List, [], ◌∷◌}
use native.Mathlib.Omega.{arith}
use text.Mathlib.TextLemmas.{nil-append, cons-append, append_assoc}
use text.Mathlib.TextEquality.{Char-path}
use agent_ledger.Base.Tests.{if◌then◌else◌, ◌==◌, ==_iff, Bool-cases, Option-cases}

-- The code points of a text: its bytes, where it is ASCII.
abbrev pub codes : String → List ℕ
codes String.[] = []
codes (String.◌∷◌ c s) = code c ∷ codes s

-- What follows a prefix of a text.
unfoldable pub strip : String → String → Option String
strip String.[] t = some t
strip (String.◌∷◌ c p) String.[] = none
strip (String.◌∷◌ c p) (String.◌∷◌ d t) = if code c == code d then strip p t else none

abbrev pub has_prefix : String → String → Bool
has_prefix t p = elim (strip p t) [ some rest ↦ true | none ↦ false ]

abbrev pub trim_prefix : String → String → String
trim_prefix t p = elim (strip p t) [ some rest ↦ rest | none ↦ t ]

pub strip-append : (p t : String) → strip p (String.◌++◌ p t) ≡ some t
unfolding strip
strip-append String.[] t = ap some (nil-append t)
strip-append (String.◌∷◌ c p) t =
    ap (strip (String.◌∷◌ c p)) (cons-append c p t) ∙ ground (arith, strip-append p t)

-- The two texts differ at a place that both have.
unfoldable pub clash : String → String → Bool
clash String.[] q = false
clash (String.◌∷◌ c p) String.[] = false
clash (String.◌∷◌ c p) (String.◌∷◌ d q) = if code c == code d then clash p q else true

pub strip-clash : (p q t r : String) → clash p q ≡ true → strip p t ≡ some r → strip q t ≡ none
unfolding strip clash
strip-clash String.[] q t r h e = ground (arith, h)
strip-clash (String.◌∷◌ c p) String.[] t r h e = ground (arith, h)
strip-clash (String.◌∷◌ c p) (String.◌∷◌ d q) String.[] r h e = ground (arith, e)
strip-clash (String.◌∷◌ c p) (String.◌∷◌ d q) (String.◌∷◌ x t) r h e =
    ground (arith, h, e, strip-clash p q t r)

-- What stands before the first slash of a text that has one.
unfoldable pub before_slash : String → Option String
before_slash String.[] = none
before_slash (String.◌∷◌ c t) =
    if code c == b'/'
    then some ""
    else elim (before_slash t) [ none ↦ none | some s ↦ some (String.◌∷◌ c s) ]

-- The first segment of a path that has more than one.
unfoldable pub first_segment : String → Option String
first_segment t = elim (strip "/" t) [ none ↦ none | some u ↦ before_slash u ]

before_slash-strip :
    (p t r s : String) → strip p t ≡ some r → before_slash p ≡ some s → before_slash t ≡ some s
unfolding strip before_slash
before_slash-strip String.[] t r s e h = ground (arith, h)
before_slash-strip (String.◌∷◌ c p) String.[] r s e h = ground (arith, e)
before_slash-strip (String.◌∷◌ c p) (String.◌∷◌ d t) r s e h =
    elim (Bool-cases (code c == code d)) [
      | inr n ↦ ground (arith, n, e)
      | inl n ↦
          let same = Char-path c d ((==_iff (code c) (code d)).0 n) in
          elim (Option-cases (before_slash p)) [
            | inl m ↦ ground (arith, n, e, h, m, same)
            | inr (u, m) ↦ ground (arith, n, e, h, m, same, before_slash-strip p t r u)
          ]
    ]

pub first_segment-strip :
    (p t r s : String) → strip p t ≡ some r → first_segment p ≡ some s → first_segment t ≡ some s
unfolding first_segment strip
first_segment-strip String.[] t r s e h = ground (arith, h)
first_segment-strip (String.◌∷◌ c p) String.[] r s e h = ground (arith, e)
first_segment-strip (String.◌∷◌ c p) (String.◌∷◌ d t) r s e h =
    ground (arith, e, h, before_slash-strip p t r s)

begins_slash : (t u : String) → strip "/" t ≡ some u → before_slash t ≡ some ""
unfolding strip before_slash
begins_slash String.[] u e = ground (arith, e)
begins_slash (String.◌∷◌ c t) u e = ground (arith, e)

-- A segment is followed by its slash.
before_slash-append :
    (s t u : String)
    → before_slash s ≡ none
    → strip "/" t ≡ some u
    → before_slash (String.◌++◌ s t) ≡ some s
unfolding before_slash
before_slash-append String.[] t u h e = rw (nil-append t) (begins_slash t u e)
before_slash-append (String.◌∷◌ c s) t u h e =
    ap before_slash (cons-append c s t) ∙ elim (Option-cases (before_slash s)) [
      | inl m ↦ ground (arith, h, m, before_slash-append s t u m e)
      | inr (v, m) ↦ absurd (ground (arith, h, m))
    ]

-- A path below a prefix of one segment.
pub first_segment-append :
    (s t u : String)
    → before_slash s ≡ none
    → strip "/" t ≡ some u
    → first_segment (String.◌++◌ (String.◌++◌ "/" s) t) ≡ some s
unfolding first_segment
first_segment-append s t u h e = ground (
  arith,
  ap (strip "/") (append_assoc "/" s t),
  strip-append "/" (String.◌++◌ s t),
  before_slash-append s t u h e,
)

-- A prefix of two parts is stripped in two steps.
pub strip-append_left :
    (p q t : String)
    → strip (String.◌++◌ p q) t ≡ elim (strip p t) [ none ↦ none | some u ↦ strip q u ]
unfolding strip
strip-append_left String.[] q t = rw (nil-append q) refl
strip-append_left (String.◌∷◌ c p) q String.[] = ap (λ s. strip s String.[]) (cons-append c p q)
strip-append_left (String.◌∷◌ c p) q (String.◌∷◌ d t) =
    ap (λ s. strip s (String.◌∷◌ d t)) (cons-append c p q) ∙ ground (arith, strip-append_left p q t)

-- strings.Contains
unfoldable pub contains : String → String → Bool
contains String.[] t = has_prefix "" t
contains (String.◌∷◌ c s) t = let later = contains s t in has_prefix (String.◌∷◌ c s) t || later

-- A text that begins with two texts one after the other begins with the first.
pub has_prefix-append :
    (a b t : String) → has_prefix t (String.◌++◌ a b) ≡ true → has_prefix t a ≡ true
unfolding strip
has_prefix-append String.[] b t h = refl
has_prefix-append (String.◌∷◌ c a) b String.[] h =
    let g = subst (λ s. has_prefix String.[] s ≡ true) (cons-append c a b) h in ground (arith, g)
has_prefix-append (String.◌∷◌ c a) b (String.◌∷◌ d t) h =
    let g = subst (λ s. has_prefix (String.◌∷◌ d t) s ≡ true) (cons-append c a b) h in
    ground (arith, g, has_prefix-append a b t)
