-- ===== src/Subscription/Tests.antt =====
-- A concrete answer of the server.
use real_api_server.Prelude.{ℕ, Option, some, List, [], ◌∷◌, true, false}
use real_api_server.Prelude.Int.{ℤ, pos}
use real_api_server.Prelude.Dict.{Dict}
use real_api_server.Subscription.{compiled, DetailCountry, Traffic}
use real_api_server.Samples.{whole_floats}

abbrev answer : Option (ℕ × List (DetailCountry ℤ))
answer =
    some (200, record { switch_ = 1; channel = "kok"; weight = pos 2; country = "ID" ∷ [] } ∷ [])

abbrev old : Dict (Traffic whole_floats)
old = []

abbrev first : List ℤ → ℤ → ℕ
first ws r = 0

abbrev of_id : Traffic whole_floats
of_id = record {
  sum = pos 2;
  weight_list = pos 1 ∷ [];
  obj_list = record { channel = "kok"; takes_conds = false } ∷ [];
  label_list = "kok" ∷ [];
  compiled = true;
}
