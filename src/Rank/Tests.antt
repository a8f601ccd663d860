-- ===== src/Rank/Tests.antt =====
-- Concrete lists of offers.
use real_api_server.Prelude.{ℕ, ◌-◌, ◌≡◌, refl, true, false, List, [], ◌∷◌, arith, length}
use real_api_server.Prelude.Int.{ℤ}
use real_api_server.RawAd.{RawAd}
use real_api_server.Rank.{random_copy}
use real_api_server.Rank.Copy.{count_white, length-random_copy}
use real_api_server.Prelude.{String, Option, some, none}
use real_api_server.Prelude.Int.{pos}
use real_api_server.Rank.{Conf, PostReq, PostResp, white, select, select_wg}
use real_api_server.Rank.Chosen.{Chooses, Stops, select-Offered}
use real_api_server.Samples.{request, offer}

abbrev offers : List (RawAd ℤ)
offers = offer "a" true ∷ offer "b" true ∷ offer "c" false ∷ []

length-random_copy_example : length (random_copy offers request).0 ≡ 3
unfolding count_white
length-random_copy_example = length-random_copy 2 offers request refl (omega arith)

abbrev last : ℕ → ℕ → ℕ
last i l = l - 1

-- the server names the last offer
abbrev answers_last : String → ℕ → PostReq ℤ → Option (PostResp ℤ)
answers_last api user post = some (record {
  tot = pos 1;
  err_msg = "ok";
  method = "ctr";
  resp = record { method = ""; id = "c"; channel = (offer "c" false).channel; ecpm = pos 3 } ∷ [];
})

abbrev one_api : Conf
one_api = record { rank_apis = "r" ∷ []; imp_rank_api = "i" }

select-Offered_example :
    Chooses
      (Stops one_api answers_last 0)
      offers
      request
      (select (λ x. "e") (λ x. "po") (λ t. none) one_api answers_last offers request 0)
    × Chooses
        (Stops one_api answers_last (length (white true offers)))
        offers
        request
        (select_wg (λ x. "e") (λ x. "po") (λ t. none) one_api answers_last offers request 0)
select-Offered_example =
    select-Offered (λ x. "e") (λ x. "po") (λ t. none) one_api answers_last offers request 0
