-- ===== src/Retrieval/Tests.antt =====
-- A concrete offer before a concrete request.
use real_api_server.Prelude.{
  ℕ, Bool, none, List, ◌∷◌, ◌++◌, ◌≢◌, ◌≤◌, length, All, ◌≡◌, ◌⊎◌, ◌↔◌, true, false, [], Within,
  String, ◌==◌, string_eq,
}
use real_api_server.Prelude.Int.{ℤ, pos}
use real_api_server.Pacing.{PacingController}
use real_api_server.Samples.Pacing.{forgetful}
use real_api_server.RawAd.{RawAd}
use real_api_server.Retrieval.Filter.{Draws, search_filter}
use real_api_server.Retrieval.Filter.Laws.{Suits, search_filter-Suits}
use real_api_server.Retrieval.Wugan.{ads_per_view, ad_lists}
use real_api_server.Retrieval.Wugan.Views.{flatten, ad_lists-flatten}
use real_api_server.Retrieval.Fuyu.{fuyu_raws}
use real_api_server.Retrieval.Fuyu.Unique.{OnePerPkg, fuyu_raws-OnePerPkg}
use real_api_server.Retrieval.VideoV4.Answer.{Answers}
use real_api_server.Retrieval.NativeV4.Answer.{Answers as NativeAnswers}
use real_api_server.Samples.{whole_floats, request, offer, slot}

abbrev draws : Draws ℤ
draws = record {
  traffic = pos 0;
  pre_click = pos 0;
  own_lang = λ i n. false;
  all_langs = λ i n. false;
}

abbrev uncapped : PacingController forgetful
uncapped = record { m = λ k t. none; pacing = pos 2; n_instances = 1 }

abbrev same_text : String → String → Bool
same_text s k = s == k

search_filter-Suits_example :
    (((search_filter whole_floats forgetful same_text draws uncapped
          (slot "77")
          (offer "a" false)
          request).1
        ≡ true)
      ↔ Suits whole_floats forgetful same_text draws uncapped (slot "77") (offer "a" false) request)
    × (((search_filter whole_floats forgetful same_text draws uncapped
            (slot "77")
            (offer "a" false)
            request).1
          ≡ false)
        ⊎ ((search_filter whole_floats forgetful same_text draws uncapped
              (slot "77")
              (offer "a" false)
              request).0
            ≡ request))
search_filter-Suits_example =
    search_filter-Suits whole_floats forgetful same_text draws uncapped (slot "77")
      (offer "a" false) request

abbrev four_ads : List ℕ
four_ads = 1 ∷ 2 ∷ 3 ∷ 4 ∷ []

abbrev no_error : ℕ
no_error = 0

ad_lists-flatten_example :
    ((no_error ≡ 0)
      × (flatten (ad_lists no_error four_ads) ≡ four_ads)
      × (length (ad_lists no_error four_ads) ≡ 3)
      × All (λ v. length v ≤ ads_per_view (length four_ads) 3) (ad_lists no_error four_ads))
    ⊎ ((no_error ≢ 0) × (ad_lists no_error four_ads ≡ []))
ad_lists-flatten_example = ad_lists-flatten no_error four_ads

abbrev found : List (RawAd ℤ)
found = offer "a" false ∷ offer "b" false ∷ []

fuyu_raws-OnePerPkg_example :
    (offline : List (RawAd ℤ)) × (fuyu : List (RawAd ℤ)) × (fuyu_raws 1 found [] ≡ offline ++ fuyu)
    × OnePerPkg offline
    × All (λ r. Within r []) offline
    × OnePerPkg fuyu
    × All (λ r. Within r found) fuyu
    × (length fuyu ≤ 1)
fuyu_raws-OnePerPkg_example = fuyu_raws-OnePerPkg 1 found []

abbrev on_ym : String
on_ym = "ym"
