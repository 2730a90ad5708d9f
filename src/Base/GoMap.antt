-- ===== src/Base/GoMap.antt =====
-- Go's `map[string]V`: an association list, whose order stands for the order of one `range` loop
-- (Go fixes none, so a statement about every list covers every order).
use Prim.Native.Nat.{suc, ◌≤◌, ◌<◌}
use Prim.Native.String.{String}
use mathlib.Core.Path.{◌≡◌, refl, ap, ◌∙◌}
use mathlib.Core.Logic.{inl, inr, ◌≢◌}
use mathlib.Core.Bool.{Bool}
use mathlib.Core.Option.{Option, none, some}
use mathlib.Core.List.{List, [], ◌∷◌}
use native.Mathlib.Omega.{arith}
use text.Mathlib.Text.{◌==◌ as str_eq}
use text.Mathlib.TextEquality.{eq_iff}
use agent_ledger.Base.Tests.{if◌then◌else◌, Bool-cases}
use agent_ledger.Base.Lists.{length, All}

abbrev pub GoMap {ℓ} : Type ℓ → Type ℓ
GoMap V = List (String × V)

module _ {ℓ} {V : Type ℓ} where
  -- v, ok := m[k]
  unfoldable pub get : GoMap V → String → Option V
  get [] k = none
  get ((j, v) ∷ m) k = if str_eq j k then some v else get m k

  -- m[k] = v
  unfoldable pub put : GoMap V → String → V → GoMap V
  put [] k v = (k, v) ∷ []
  put ((j, w) ∷ m) k v = let rest = put m k v in if str_eq j k then (j, v) ∷ m else (j, w) ∷ rest

  -- delete(m, k)
  unfoldable pub delete : GoMap V → String → GoMap V
  delete [] k = []
  delete ((j, w) ∷ m) k = let rest = delete m k in if str_eq j k then rest else (j, w) ∷ rest

  -- for k, v := range m { if drop(v) { delete(m, k) } }
  unfoldable pub delete_where : (V → Bool) → GoMap V → GoMap V
  delete_where drop [] = []
  delete_where drop ((j, w) ∷ m) =
      let rest = delete_where drop m in if drop w then rest else (j, w) ∷ rest

  pub get-put :
      (m : GoMap V) (k j : String) (v : V)
      → get (put m k v) j ≡ (if str_eq k j then some v else get m j)
  unfolding get put
  get-put [] k j v = refl
  get-put ((i, w) ∷ m) k j v = ground (arith, eq_iff i k, eq_iff i j, eq_iff k j, get-put m k j v)

  pub get-delete :
      (m : GoMap V) (k j : String) → get (delete m k) j ≡ (if str_eq k j then none else get m j)
  unfolding get delete
  get-delete [] k j = ground arith
  get-delete ((i, w) ∷ m) k j = ground (arith, eq_iff i k, eq_iff i j, eq_iff k j, get-delete m k j)

  pub get-put_self : (m : GoMap V) (k : String) (v : V) → get (put m k v) k ≡ some v
  get-put_self m k v = ground (arith, get-put m k k v, eq_iff k k)

  pub get-put_ne : (m : GoMap V) (k j : String) (v : V) → k ≢ j → get (put m k v) j ≡ get m j
  get-put_ne m k j v h = ground (arith, get-put m k j v, eq_iff k j)

  -- The keys of a Go map are distinct.
  abbrev pub Fresh : String → GoMap V → Type 0
  Fresh k m = All {A = String × V} (λ e. e.0 ≢ k) m

  abbrev pub Distinct : GoMap V → Type 0
  Distinct [] = Unit
  Distinct ((j, w) ∷ m) = Fresh j m × Distinct m

  pub get-Fresh : (m : GoMap V) (k : String) → Fresh k m → get m k ≡ none
  unfolding get
  get-Fresh [] k h = refl
  get-Fresh ((j, w) ∷ m) k h = ground (arith, eq_iff j k, get-Fresh m k h.1)

  pub Fresh-put : (m : GoMap V) (k j : String) (v : V) → j ≢ k → Fresh k m → Fresh k (put m j v)
  unfolding put
  Fresh-put [] k j v ne h = (ne, tt)
  Fresh-put ((i, w) ∷ m) k j v ne h = ground (arith, Fresh-put m k j v ne h.1)

  pub Distinct-put : (m : GoMap V) (k : String) (v : V) → Distinct m → Distinct (put m k v)
  unfolding put
  Distinct-put [] k v h = (tt, tt)
  Distinct-put ((i, w) ∷ m) k v h = elim (Bool-cases (str_eq i k)) [
    | inl e ↦ rw e h
    | inr e ↦ rw e (Fresh-put m i k v (λ p. ground (arith, eq_iff i k)) h.0, Distinct-put m k v h.1)
  ]

  pub Fresh-delete : (m : GoMap V) (k j : String) → Fresh k m → Fresh k (delete m j)
  unfolding delete
  Fresh-delete [] k j h = tt
  Fresh-delete ((i, w) ∷ m) k j h = ground (arith, Fresh-delete m k j h.1)

  pub Distinct-delete : (m : GoMap V) (k : String) → Distinct m → Distinct (delete m k)
  unfolding delete
  Distinct-delete [] k h = tt
  Distinct-delete ((i, w) ∷ m) k h = ground (arith, Fresh-delete m i k h.0, Distinct-delete m k h.1)

  pub Fresh-delete_where :
      (drop : V → Bool) (m : GoMap V) (k : String) → Fresh k m → Fresh k (delete_where drop m)
  unfolding delete_where
  Fresh-delete_where drop [] k h = tt
  Fresh-delete_where drop ((i, w) ∷ m) k h = ground (arith, Fresh-delete_where drop m k h.1)

  pub Distinct-delete_where :
      (drop : V → Bool) (m : GoMap V) → Distinct m → Distinct (delete_where drop m)
  unfolding delete_where
  Distinct-delete_where drop [] h = tt
  Distinct-delete_where drop ((i, w) ∷ m) h =
      ground (arith, Fresh-delete_where drop m i h.0, Distinct-delete_where drop m h.1)

  -- What `delete_where` keeps of a value that is found.
  abbrev pub keep : (V → Bool) → Option V → Option V
  keep drop none = none
  keep drop (some w) = if drop w then none else some w

  pub get-delete_where :
      (drop : V → Bool) (m : GoMap V) (k : String)
      → Distinct m
      → get (delete_where drop m) k ≡ keep drop (get m k)
  unfolding get delete_where
  get-delete_where drop [] k h = refl
  get-delete_where drop ((i, w) ∷ m) k h = elim (Bool-cases (str_eq i k)) [
    | inl e ↦
        let gone = get-Fresh (delete_where drop m) i (Fresh-delete_where drop m i h.0) in
        ground (arith, eq_iff i k)
    | inr e ↦ ground (arith, get-delete_where drop m k h.1)
  ]

  -- Sizes, for a cap on the number of entries.
  pub length-put_new :
      (m : GoMap V) (k : String) (v : V) → get m k ≡ none → length (put m k v) ≡ suc (length m)
  unfolding get put
  length-put_new [] k v h = refl
  length-put_new ((i, w) ∷ m) k v h = ground (arith, length-put_new m k v)

  pub length-put_old :
      (m : GoMap V) (k : String) (v w : V) → get m k ≡ some w → length (put m k v) ≡ length m
  unfolding get put
  length-put_old [] k v w h = cc
  length-put_old ((i, u) ∷ m) k v w h = ground (arith, length-put_old m k v w)

  pub length-delete-le : (m : GoMap V) (k : String) → length (delete m k) ≤ length m
  unfolding delete
  length-delete-le [] k = omega arith
  length-delete-le ((i, w) ∷ m) k = ground (arith, length-delete-le m k)

  pub length-delete_found :
      (m : GoMap V) (k : String) (w : V) → get m k ≡ some w → length (delete m k) < length m
  unfolding get delete
  length-delete_found [] k w h = cc
  length-delete_found ((i, u) ∷ m) k w h =
      ground (arith, length-delete-le m k, length-delete_found m k w)

  pub length-delete_where-le :
      (drop : V → Bool) (m : GoMap V) → length (delete_where drop m) ≤ length m
  unfolding delete_where
  length-delete_where-le drop [] = omega arith
  length-delete_where-le drop ((i, w) ∷ m) = ground (arith, length-delete_where-le drop m)

  get-entries_cons :
      (m xs : GoMap V) (j : String) (w : V)
      → Fresh j xs
      → All {A = String × V} (λ e. get m e.0 ≡ some e.1) xs
      → All {A = String × V} (λ e. get ((j, w) ∷ m) e.0 ≡ some e.1) xs
  unfolding get
  get-entries_cons m [] j w f a = tt
  get-entries_cons m ((i, v) ∷ xs) j w f a =
      (ground (arith, eq_iff j i), get-entries_cons m xs j w f.1 a.1)

  -- Every entry of a map is found under its key.
  pub get-entries : (m : GoMap V) → Distinct m → All {A = String × V} (λ e. get m e.0 ≡ some e.1) m
  unfolding get
  get-entries [] h = tt
  get-entries ((j, w) ∷ m) h =
      (ground (arith, eq_iff j j), get-entries_cons m m j w h.0 (get-entries m h.1))

  -- Maps with the same keys in the same order.
  abbrev pub SameKeys : GoMap V → GoMap V → Type 0
  SameKeys [] [] = Unit
  SameKeys [] (e ∷ n) = ⊥
  SameKeys (e ∷ m) [] = ⊥
  SameKeys ((i, v) ∷ m) ((j, w) ∷ n) = (i ≡ j) × SameKeys m n

  pub SameKeys-Fresh : (m n : GoMap V) (k : String) → SameKeys m n → Fresh k m → Fresh k n
  SameKeys-Fresh [] [] k s h = tt
  SameKeys-Fresh [] (e ∷ n) k s h = absurd s
  SameKeys-Fresh (e ∷ m) [] k s h = absurd s
  SameKeys-Fresh ((i, v) ∷ m) ((j, w) ∷ n) k s h =
      (λ p. h.0 (s.0 ∙ p), SameKeys-Fresh m n k s.1 h.1)

  pub SameKeys-Distinct : (m n : GoMap V) → SameKeys m n → Distinct m → Distinct n
  SameKeys-Distinct [] [] s h = tt
  SameKeys-Distinct [] (e ∷ n) s h = absurd s
  SameKeys-Distinct (e ∷ m) [] s h = absurd s
  SameKeys-Distinct ((i, v) ∷ m) ((j, w) ∷ n) s h =
      (SameKeys-Fresh m n j s.1 (rw s.0 at h.0), SameKeys-Distinct m n s.1 h.1)

  pub SameKeys-length : (m n : GoMap V) → SameKeys m n → length m ≡ length n
  SameKeys-length [] [] s = refl
  SameKeys-length [] (e ∷ n) s = absurd s
  SameKeys-length (e ∷ m) [] s = absurd s
  SameKeys-length ((i, v) ∷ m) ((j, w) ∷ n) s = ap suc (SameKeys-length m n s.1)

  pub length-put-le : (m : GoMap V) (k : String) (v : V) → length (put m k v) ≤ suc (length m)
  unfolding put
  length-put-le [] k v = omega arith
  length-put-le ((i, w) ∷ m) k v = ground (arith, length-put-le m k v)
