-- ===== src/Retrieval/Filter.antt =====
-- The filter that retrievalHandler of retrieval/retrieval.go hands to the search.
pub mod Laws
use real_api_server.Prelude.{
  ℕ, String, Bool, true, false, not, ◌&&◌, ◌||◌, Option, none, some, List, [], ◌∷◌, ◌==◌, string_eq,
  if◌then◌else◌,
}
use real_api_server.Prelude.Int.{ℤ, pos}
use real_api_server.Prelude.Dict.{lookup}
use real_api_server.Prelude.Float.{Float64}
use real_api_server.HttpContext.{Context, is_wugan, in_freq_cap, pre_click_in_freq_cap, debug}
use real_api_server.RawAd.{RawAd, is_hit_carrier}
use real_api_server.RawAd.Image.{Img}
use real_api_server.RawAd.Media.{has_matched_creative}
use real_api_server.Pacing.{ExpiredMap, PacingController, over_cap}
use real_api_server.Ssp.{SlotInfo}
use real_api_server.Retrieval.{ad_search, match_key_words}

-- IsDefIcon; the two urls stand in offer/common.go
unfoldable pub is_def_icon : String → String → Bool
is_def_icon platform icon =
    if platform == "iOS"
    then icon == "https://cdn.image.zcoup.com/default/icon/100/100/apple/icon.png"
    else if platform == "Android"
    then icon == "https://cdn.image.zcoup.com/default/icon/100/100/google/icon.png"
    else true

-- the loop over the icons
unfoldable pub any_def_icon : String → List Img → Bool
unfolding is_def_icon
any_def_icon platform [] = false
any_def_icon platform (icon ∷ icons) =
    let rest = any_def_icon platform icons in if is_def_icon platform icon.url then true else rest

-- raw.Icons["ALL"]
unfoldable pub all_icons : {F : Type 0} → RawAd F → List Img
all_icons raw = elim (lookup "ALL" raw.icons) [ none ↦ [] | some icons ↦ icons ]

-- cat
unfoldable pub first_cat : List String → String
first_cat [] = "all"
first_cat (c ∷ cats) = c

-- What a run of the filter draws: the numbers of rand.Float64() in adSearch and for the pre-click, and
-- the coins of the two calls of GetMaxMatchedImg.
pub record Draws (F : Type 0) : Type 0 where
  pub traffic : F
  pub pre_click : F
  pub own_lang : ℕ → ℕ → Bool
  pub all_langs : ℕ → ℕ → Bool

module _ (fl : Float64) (em : ExpiredMap) (contains : String → String → Bool) where
  -- the part for the requests that are `wugan`
  unfoldable pub wugan_filter : Draws fl.F → PacingController em → RawAd fl.F → Context → Bool
  wugan_filter draws pc raw ctx =
      not (raw.payout_type == "CPL")
      && (not (fl.at_most raw.pre_rate draws.pre_click)
          && (pre_click_in_freq_cap ctx raw.pkg_name (pos 1)
              && not (over_cap em raw.uniq_id ctx.country raw.pacing ctx.now pc)))

  -- the part for the others
  unfoldable pub plain_filter : Draws fl.F → RawAd fl.F → Context → Context × Bool
  plain_filter draws raw ctx =
      let refuse : String → Context × Bool = λ msg. (debug raw.uniq_id msg ctx, false) in
      if not (in_freq_cap ctx raw.pkg_name (pos 1)).0
      then refuse "pkg frequency"
      else if not (has_matched_creative fl draws.own_lang draws.all_langs raw ctx)
      then refuse "has no matched creatives"
      else if not (match_key_words contains raw ctx)
      then refuse "not matched keywords"
      else if ctx.ad_cat == "1" && not (first_cat raw.app_category == "game")
      then refuse "not game cat"
      else if ctx.ad_cat == "2" && not (first_cat raw.app_category == "tool")
      then refuse "not tool cat"
      else (ctx, true)

  -- the whole filter: the context, with the notes of Debug, and the verdict
  unfoldable pub search_filter :
      Draws fl.F → PacingController em → SlotInfo fl.F → RawAd fl.F → Context → Context × Bool
  unfolding wugan_filter plain_filter
  search_filter draws pc tpl raw ctx =
      let found = ad_search fl draws.traffic raw ctx tpl in
      if raw.is_t
      then (ctx, false)
      else if not found.1
      then (debug raw.uniq_id found.0 ctx, false)
      else if ctx.integral_wall && any_def_icon raw.platform (all_icons raw)
      then (debug raw.uniq_id "icon invalid" ctx, false)
      else if not (ctx.carrier == "") && not (is_hit_carrier raw ctx.carrier)
      then (debug raw.uniq_id "carrier not hit" ctx, false)
      else if is_wugan ctx
      then (ctx, wugan_filter draws pc raw ctx)
      else plain_filter draws raw ctx
