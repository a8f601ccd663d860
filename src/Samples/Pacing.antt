-- ===== src/Samples/Pacing.antt =====
-- A concrete map that forgets, for the tests.
use real_api_server.Prelude.{
  ℕ, ◌+◌, ◌<◌, ◌≡◌, Option, none, some, arith, ltb, if◌then◌else◌, string_eq, nat_eq,
}
use real_api_server.Prelude.Int.{ℤ}
use real_api_server.Pacing.{ExpiredMap, Key, same_key}

-- The values by key and time.
abbrev pub Values : Type 0
Values = Key → ℕ → Option ℤ

abbrev pub put_value : Values → Key → ℤ → ℕ → ℕ → Values
put_value m k v now life =
    λ j t. if same_key k j then (if ltb t (now + life) then some v else none) else m j t

pub put_value-read :
    (m : Values) (k j : Key) (v : ℤ) (now life t : ℕ)
    → t < now + life
    → put_value m k v now life j t ≡ (if same_key k j then some v else m j t)
put_value-read m k j v now life t h = ground (arith, h)

abbrev pub forgetful : ExpiredMap
forgetful = record { M = Values; get = λ m k t. m k t; put = put_value; get_put = put_value-read }
