-- ===== src/Meter/Examples.antt =====
-- The price of a dated model, with costs in thousandths of a dollar.
use agent_ledger.Base.{ℤ, pos, ◌≡◌, refl, String, eq_iff, Option, some, [], ◌∷◌, arith}
use agent_ledger.Base.GoMap
use agent_ledger.Base.GoMap.{GoMap}
use agent_ledger.Meter.Encoding.{Encoder, count_tokens, count_of, Genuine, count_tokens-Genuine}
use agent_ledger.Meter.Cost.{find_pricing}
use agent_ledger.Meter.Prefix.{Prices, find_pricing-Prices}

abbrev two_prices : GoMap ℤ
two_prices = ("gpt-4", pos 30000) ∷ ("gpt-4o", pos 2500) ∷ []

find_pricing-Prices_example :
    Prices two_prices "gpt-4o-2024-08-06" (find_pricing two_prices "gpt-4o-2024-08-06")
unfolding GoMap.get
find_pricing-Prices_example =
    find_pricing-Prices two_prices "gpt-4o-2024-08-06" (ground (arith, eq_iff "gpt-4" "gpt-4o"))
      refl

abbrev get_encoding : String → Option Encoder
get_encoding name = some (λ text. pos 2)

count_tokens-Genuine_example :
    ((count_tokens get_encoding [] "gpt-4o" "hi").1 ≡ count_of get_encoding "gpt-4o" "hi")
    × Genuine get_encoding (count_tokens get_encoding [] "gpt-4o" "hi").0
unfolding GoMap.get
count_tokens-Genuine_example =
    count_tokens-Genuine get_encoding [] "gpt-4o" "hi" (λ k c e. ground (arith, e))
