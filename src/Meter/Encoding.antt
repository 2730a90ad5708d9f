-- ===== src/Meter/Encoding.antt =====
-- internal/meter/estimator.go: token counts where a reply reports none. Package tiktoken is a
-- parameter: the encoder of an encoding, `none` where it cannot be had, counts a text's tokens.
use text.Mathlib.Text.{starts_with}
use agent_ledger.Base.{
  ℤ, pos, String, str_eq, eq_iff, Option, none, some, List, [], ◌∷◌, if◌then◌else◌, ◌≡◌, arith,
  Bool-cases, Option-cases, inl, inr,
}
use agent_ledger.Base.GoMap
use agent_ledger.Base.GoMap.{GoMap}

abbrev pub Encoder : Type 0
Encoder = String → ℤ

pub prefixes : List (String × String)
prefixes =
    ("gpt-4.1", "o200k_base")
    ∷ ("gpt-4o", "o200k_base")
    ∷ ("o1", "o200k_base")
    ∷ ("o3", "o200k_base")
    ∷ ("o4", "o200k_base")
    ∷ ("gpt-4", "cl100k_base")
    ∷ ("gpt-3.5", "cl100k_base")
    ∷ ("claude", "cl100k_base")
    ∷ []

first_encoding : List (String × String) → String → String
first_encoding [] model = ""
first_encoding ((prefix, encoding) ∷ ps) model =
    if starts_with model prefix then encoding else first_encoding ps model

pub encoding_for_model : String → String
unfolding prefixes first_encoding
encoding_for_model model = first_encoding prefixes model

module _ (get_encoding : String → Option Encoder) where
  -- getEncoder, and the cache after it.
  pub get_encoder : GoMap Encoder → String → GoMap Encoder × Option Encoder
  get_encoder encoders model =
      let encoding = encoding_for_model model in
      if str_eq encoding "" then (encoders, none) else elim (GoMap.get encoders encoding) [
        | some enc ↦ (encoders, some enc)
        | none ↦ elim (get_encoding encoding) [
          | none ↦ (encoders, none)
          | some enc ↦ (GoMap.put encoders encoding enc, some enc)
        ]
      ]

  -- CountTokens
  pub count_tokens : GoMap Encoder → String → String → GoMap Encoder × ℤ
  unfolding get_encoder
  count_tokens encoders model text =
      let (encoders', encoder) = get_encoder encoders model in
      (encoders', elim encoder [ none ↦ pos 0 | some enc ↦ enc text ])

  -- Every cached encoder is the one that tiktoken gives for its encoding.
  abbrev pub Genuine : GoMap Encoder → Type 0
  Genuine encoders =
      (encoding : String) (enc : Encoder)
      → GoMap.get encoders encoding ≡ some enc
      → get_encoding encoding ≡ some enc

  -- The count without a cache.
  pub count_of : String → String → ℤ
  count_of model text =
      if str_eq (encoding_for_model model) ""
      then pos 0
      else elim (get_encoding (encoding_for_model model)) [ none ↦ pos 0 | some enc ↦ enc text ]

  -- With a cache that holds only encoders that tiktoken gave, a count is the one without a cache,
  -- and the cache is again such a one.
  pub count_tokens-Genuine :
      (encoders : GoMap Encoder) (model text : String)
      → Genuine encoders
      → ((count_tokens encoders model text).1 ≡ count_of model text)
        × Genuine (count_tokens encoders model text).0
  unfolding count_tokens count_of
  count_tokens-Genuine encoders model text g =
      let name = encoding_for_model model in
      elim (Bool-cases (str_eq name "")) [
        | inl e ↦ (ground (arith, e), λ k c p. ground (arith, e, g k c, p))
        | inr e ↦ elim (Option-cases (GoMap.get encoders name)) [
          | inr (enc, h) ↦
              (ground (arith, e, h, g name enc h), λ k c p. ground (arith, e, h, g k c, p))
          | inl h ↦ elim (Option-cases (get_encoding name)) [
            | inl n ↦ (ground (arith, e, h, n), λ k c p. ground (arith, e, h, n, g k c, p))
            | inr (enc, n) ↦ (
              ground (arith, e, h, n),
              λ k c p.
                  ground
                    (arith, e, h, n, g k c, GoMap.get-put encoders name k enc, eq_iff name k, p),
            )
          ]
        ]
      ]
