-- ===== src/Agent/Detector/LoopWindow.antt =====
-- The loop count against its description: the calls of a path within the window.
use mathlib.Core.List.{reverse, reverse-append}
use agent_ledger.Base.{
  ℕ, suc, ◌+◌, pos, ◌≤ℤ◌, ◌<ℤ◌, not, ◌&&◌, ◌≡◌, ◌≢◌, refl, ap, ◌∙◌, sym, ◌↔◌, String, str_eq, none,
  List, [], ◌∷◌, ◌++◌, if◌then◌else◌, arith, All, All-append, subst, Bool-cases, inl, inr,
}
use agent_ledger.Base.Clock.{Time, before}
use agent_ledger.Agent.Session.{CallRecord}
use agent_ledger.Agent.Detector.{Detector, count_back, recent_count, check_loop, cutoff_at}

-- How many calls of a path are not before the cutoff, in any order.
unfoldable pub calls_within : Time → String → List CallRecord → ℕ
calls_within cutoff path [] = 0
calls_within cutoff path (c ∷ cs) =
    let rest = calls_within cutoff path cs in
    if not (before c.timestamp cutoff) && str_eq c.path path then suc rest else rest

-- Timestamps do not fall along the list.
abbrev pub Chronological : List CallRecord → Type 0
Chronological [] = Unit {0}
Chronological (c ∷ cs) = All (λ d. c.timestamp ≤ℤ d.timestamp) cs × Chronological cs

calls_within-append :
    (cutoff : Time) (path : String) (xs ys : List CallRecord)
    → calls_within cutoff path (xs ++ ys)
      ≡ calls_within cutoff path xs + calls_within cutoff path ys
unfolding calls_within
calls_within-append cutoff path [] ys = omega arith
calls_within-append cutoff path (x ∷ xs) ys = ground (arith, calls_within-append cutoff path xs ys)

-- Nothing is counted where all is before the cutoff.
calls_within_old :
    (cutoff : Time) (path : String) (xs : List CallRecord)
    → All (λ c. c.timestamp <ℤ cutoff) xs
    → calls_within cutoff path xs ≡ 0
unfolding calls_within
calls_within_old cutoff path [] h = refl
calls_within_old cutoff path (x ∷ xs) h = ground (arith, calls_within_old cutoff path xs h.1)

-- Newest first.
abbrev Falling : List CallRecord → Type 0
Falling [] = Unit {0}
Falling (c ∷ cs) = All (λ d. d.timestamp ≤ℤ c.timestamp) cs × Falling cs

All-older :
    (t cutoff : Time) (xs : List CallRecord)
    → t <ℤ cutoff
    → All (λ c. c.timestamp ≤ℤ t) xs
    → All (λ c. c.timestamp <ℤ cutoff) xs
All-older t cutoff [] h a = tt
All-older t cutoff (x ∷ xs) h a = (omega arith, All-older t cutoff xs h a.1)

count_back-calls_within :
    (cutoff : Time) (path : String) (xs : List CallRecord)
    → Falling xs
    → count_back cutoff path xs ≡ calls_within cutoff path xs
unfolding count_back calls_within
count_back-calls_within cutoff path [] h = refl
count_back-calls_within cutoff path (x ∷ xs) h = elim (Bool-cases (before x.timestamp cutoff)) [
  | inl old ↦
      let none_ =
        calls_within_old cutoff path xs (All-older x.timestamp cutoff xs (ground arith) h.0) in
      ground arith
  | inr new ↦ ground (arith, count_back-calls_within cutoff path xs h.1)
]

calls_within-reverse :
    (cutoff : Time) (path : String) (xs : List CallRecord)
    → calls_within cutoff path (reverse xs) ≡ calls_within cutoff path xs
unfolding calls_within
calls_within-reverse cutoff path [] = refl
calls_within-reverse cutoff path (x ∷ xs) =
    ap (calls_within cutoff path) (reverse-append (x ∷ []) xs)
    ∙ calls_within-append cutoff path (reverse xs) (x ∷ [])
    ∙ ground (arith, calls_within-reverse cutoff path xs)

Falling-append :
    (xs : List CallRecord) (y : CallRecord)
    → All (λ d. y.timestamp ≤ℤ d.timestamp) xs
    → Falling xs
    → Falling (xs ++ y ∷ [])
Falling-append [] y a h = (tt, tt)
Falling-append (x ∷ xs) y a h = (
  All-append (λ d. d.timestamp ≤ℤ x.timestamp) xs (y ∷ []) h.0 (a.0, tt),
  Falling-append xs y a.1 h.1,
)

All-reverse :
    (t : Time) (xs : List CallRecord)
    → All (λ d. t ≤ℤ d.timestamp) xs
    → All (λ d. t ≤ℤ d.timestamp) (reverse xs)
All-reverse t [] h = tt
All-reverse t (x ∷ xs) h =
    subst (All (λ d. t ≤ℤ d.timestamp)) (sym (reverse-append (x ∷ []) xs))
      (All-append (λ d. t ≤ℤ d.timestamp) (reverse xs) (x ∷ []) (All-reverse t xs h.1) (h.0, tt))

Falling-reverse : (xs : List CallRecord) → Chronological xs → Falling (reverse xs)
Falling-reverse [] h = tt
Falling-reverse (x ∷ xs) h =
    subst Falling (sym (reverse-append (x ∷ []) xs))
      (Falling-append (reverse xs) x (All-reverse x.timestamp xs h.0) (Falling-reverse xs h.1))

-- On a history in the order of time the loop that stops early counts every call of the path that
-- is not before the cutoff.
pub recent_count-calls_within :
    (cutoff : Time) (path : String) (xs : List CallRecord)
    → Chronological xs
    → recent_count cutoff path xs ≡ calls_within cutoff path xs
unfolding recent_count
recent_count-calls_within cutoff path xs h =
    count_back-calls_within cutoff path (reverse xs) (Falling-reverse xs h)
    ∙ calls_within-reverse cutoff path xs

-- A loop is reported exactly when threshold and window are positive and, in a history in the order
-- of time, at least `threshold` calls of the path are not older than the window.
pub check_loop-calls_within :
    {A : Type 0} (d : Detector A) (calls : List CallRecord) (path session agent : String)
    (now : Time)
    → Chronological calls
    → (check_loop d calls path session agent now ≢ none) ↔ (
        (pos 0 <ℤ d.loop_threshold)
        × (pos 0 <ℤ d.loop_window)
        × (d.loop_threshold ≤ℤ pos (calls_within (cutoff_at now d.loop_window) path calls)))
unfolding check_loop
check_loop-calls_within d calls path session agent now h =
    ground (arith, recent_count-calls_within (cutoff_at now d.loop_window) path calls h)
