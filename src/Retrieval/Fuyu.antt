-- ===== src/Retrieval/Fuyu.antt =====
-- retrieval/fuyu.go: the context, the filters and the list of the offers for `fuyu` users. `split` is
-- strings.Split by ",", `hits_wugan` is the table of util.WuganHitChannel that the configuration gives.
pub mod Unique
use real_api_server.Prelude.{
  ℕ, zero, suc, ◌+◌, ◌-◌, String, Bool, true, false, not, ◌&&◌, ◌||◌, Option, none, some, List, [],
  ◌∷◌, ◌++◌, length, take, ◌==◌, nat_eq, string_eq, if◌then◌else◌, ltb,
}
use real_api_server.Prelude.Int.{ℤ, pos, ltb_ℤ}
use real_api_server.HttpContext.{Context}
use real_api_server.RawAd.{RawAd, is_hit_slot, has_key}
use real_api_server.Pacing.{ExpiredMap, PacingController, over_cap}
use real_api_server.Ssp.{SlotInfo}
use real_api_server.Retrieval.{listed}

-- modifyFuyuCtx
pub modify_fuyu_ctx : (String → List String) → Context → Context × Bool
modify_fuyu_ctx split ctx =
    let reset = record ctx {
      idfa = "";
      gaid = "";
      aid = "";
      ad_type = if ctx.ad_type == "10" then "10" else "9";
    } in
    if ctx.platform == "iOS"
    then (record reset { user_id = ctx.fuyu_user_id; idfa = ctx.fuyu_user_id }, true)
    else if ctx.platform == "Android"
    then elim (split ctx.fuyu_user_id) [
      | [] ↦ (reset, false)
      | a ∷ ss ↦ elim ss [
        | [] ↦ (reset, false)
        | g ∷ more ↦ elim more [
          | [] ↦ (record reset { aid = a; gaid = g; user_id = a }, true)
          | x ∷ xs ↦ (reset, false)
        ]
      ]
    ]
    else (reset, false)

-- the tests of the ad type that both filters have
unfoldable pub enabled_for : {F : Type 0} → RawAd F → Context → Bool
enabled_for raw ctx =
    if (ctx.ad_type == "3" || ctx.ad_type == "4") && not raw.wugan_enabled
    then false
    else if ctx.ad_type == "9" && not raw.fuyu_enabled
    then false
    else if ctx.ad_type == "10" && not raw.js_tag_enabled
    then false
    else true

-- `tpl != nil && tpl.OfferBlackMap != nil && tpl.OfferBlackMap[id]`
unfoldable pub black_offer : {F : Type 0} → Option (SlotInfo F) → String → Bool
black_offer none id = false
black_offer (some tpl) id = listed tpl.offer_black_map id

module _ {F : Type 0} (em : ExpiredMap) where
  -- the filter of getFuyuDocsWithShuffle
  pub fuyu_filter :
      (String → Bool) → PacingController em → Option (SlotInfo F) → Context → RawAd F → Bool
  fuyu_filter hits_wugan pc tpl ctx raw =
      if not (ctx.channel == "") && not (raw.channel == ctx.channel)
      then false
      else if (ctx.country == "CN" && ctx.platform == "iOS") && not (hits_wugan raw.channel)
      then false
      else if raw.channel == "xx" || raw.channel == "xxj"
      then false
      else if black_offer tpl raw.uniq_id
      then false
      else if not (enabled_for raw ctx)
      then false
      else if over_cap em raw.uniq_id ctx.country raw.pacing ctx.now pc
      then false
      else is_hit_slot raw ctx.slot_id

  -- the filter of getOfflineFuyuDocs
  pub offline_filter :
      (String → Bool) → PacingController em → Option (SlotInfo F) → Context → RawAd F → Bool
  offline_filter offline_channels pc tpl ctx raw =
      if not (offline_channels raw.channel)
      then false
      else if not (enabled_for raw ctx)
      then false
      else if black_offer tpl raw.uniq_id
      then false
      else not (over_cap em raw.uniq_id ctx.country raw.pacing ctx.now pc)

-- adNum as getFuyuAds sets it
pub fuyu_ad_num : Context → ℤ → ℕ
fuyu_ad_num ctx (pos n) =
    if ctx.country == "CN" && ctx.platform == "iOS"
    then (if ctx.ad_type == "10" then 20 else 100)
    else n
fuyu_ad_num ctx n =
    if ctx.country == "CN" && ctx.platform == "iOS"
    then (if ctx.ad_type == "10" then 20 else 100)
    else 0

-- offlineChannel
pub offline_channels : Context → String → Bool
offline_channels ctx ch = ch == "xxj" || (not (ctx.ad_type == "10") && ch == "xx")

module _ {F : Type 0} where
  -- the loop with uniqPkg: the first offer of every package
  pub uniq_by_pkg : List String → List (RawAd F) → List (RawAd F)
  unfolding has_key
  uniq_by_pkg uniq_pkg [] = []
  uniq_by_pkg uniq_pkg (raw ∷ docs) =
      let old = uniq_by_pkg uniq_pkg docs in
      let new = raw ∷ uniq_by_pkg (raw.pkg_name ∷ uniq_pkg) docs in
      if has_key raw.pkg_name uniq_pkg then old else new

  -- The offers of getFuyuAds, from the results of its two searches: the offline ones come first.
  pub fuyu_raws : ℕ → List (RawAd F) → List (RawAd F) → List (RawAd F)
  unfolding uniq_by_pkg
  fuyu_raws ad_num docs offline_docs =
      let raw_list = uniq_by_pkg [] (if ltb 0 ad_num then docs else []) in
      uniq_by_pkg [] offline_docs
      ++ (if ltb ad_num (length raw_list) then take ad_num raw_list else raw_list)
