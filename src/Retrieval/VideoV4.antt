-- ===== src/Retrieval/VideoV4.antt =====
-- retrieval/video_v4.go: videoAdHandler from a context on, its checks and its
-- search. Of an ad the offer's id, the slot, the video, the picture and the icon are kept.
pub mod Ads
pub mod Found
pub mod Shown
pub mod Slots
pub mod Answer
use Prim.Native.String.{◌++◌ as concat}
use real_api_server.Prelude.{
  ℕ, String, Bool, true, false, not, ◌&&◌, ◌||◌, Option, none, some, List, [], ◌∷◌, ◌++◌, length,
  take, ltb, is_some, ◌==◌, nat_eq, string_eq, if◌then◌else◌,
}
use real_api_server.Prelude.Int.{ℤ, pos, eqb_ℤ, ◌*ℤ◌}
use real_api_server.Prelude.Dict.{Dict}
use real_api_server.Prelude.Float.{Float64}
use real_api_server.Prelude.Run.{Run, ok, panic, ◌>>=◌}
use real_api_server.HttpContext.{
  Context, CacheReads, get_freq, is_rewarded_video, video_in_request_cap, video_in_complete_cap,
  is_ios_installed_pkg, debug,
}
use real_api_server.RawAd.{RawAd, is_hit_channel_type}
use real_api_server.RawAd.Image.{Img}
use real_api_server.RawAd.Videos.{Video}
use real_api_server.RawAd.Media.{get_video_by_cids, video_chose_creatives}
use real_api_server.Ssp.{SlotInfo, get_video_slot, slot_imp_in_cap}
use real_api_server.Ssp.Slots.{app_category_in_black_list}
use real_api_server.Rank.Video.{VideoAnswer, select_videos}
use real_api_server.Retrieval.{Cond, ad_search, make_retrieval_conditions}

-- the trackers of the configuration, and those that SetVideoCtxTks sets
pub record VideoTracks : Type 0 where
  pub pre_imp_tks : List String
  pub pre_clk_tks : List String
  pub post_imp_tks : List String
  pub post_clk_tks : List String

pub record VideoTrackConf : Type 0 where
  pub ios : VideoTracks
  pub android : VideoTracks

-- SetVideoCtxTks
unfoldable pub set_video_ctx_tks : VideoTrackConf → Context → Run VideoTracks
set_video_ctx_tks conf ctx =
    if ctx.platform == "iOS"
    then ok conf.ios
    else if ctx.platform == "Android"
    then ok conf.android
    else panic

pub record VideoAd : Type 0 where
  pub id : String
  pub slot : String
  pub video : Video
  pub img : Img
  pub icon : Img

-- the answer of a handler, and the ids of its offers
pub record VideoResp : Type 0 where
  pub err_msg : String
  pub err_no : ℕ
  pub ad_list : List VideoAd
  pub offers : List String

-- NewRtvResp
unfoldable pub new_rtv_resp : String → ℕ → VideoResp
new_rtv_resp msg n = record { err_msg = msg; err_no = n; ad_list = []; offers = [] }

-- a request that is answered, or one that goes on to the search
pub data VideoGate (F : Type 0) : Type 0 where
  answered : VideoResp → VideoGate F
  goes_on : SlotInfo F → Context → VideoTracks → VideoGate F

module _ {F : Type 0} where
  -- getVideoTplAndUpdateSlot; the store is `none` before it is loaded
  unfoldable pub get_video_tpl_and_update_slot :
      Option (Dict (SlotInfo F)) → Context → Option (SlotInfo F × Context)
  get_video_tpl_and_update_slot none ctx = none
  get_video_tpl_and_update_slot (some store) ctx = elim (get_video_slot store ctx.slot_id) [
    | none ↦ none
    | some info ↦ some (info, record ctx { slot_id = info.id_str })
  ]

  -- what the handler sets from the slot
  unfoldable pub with_video_slot : SlotInfo F → Context → Context
  with_video_slot tpl ctx =
      let ad_type : String =
        if tpl.format == 6 then "6" else if tpl.format == 7 then "7" else ctx.ad_type in
      record ctx {
        video_screen_type =
            if eqb_ℤ tpl.video_screen_type (pos 1)
            then 1
            else if eqb_ℤ tpl.video_screen_type (pos 2)
            then 2
            else 0;
        ad_type = ad_type;
        pkg_name = concat ctx.pkg_name (concat "(vdo" (concat ad_type ")"));
      }

-- the text of the button
unfoldable pub with_button : Context → Context
with_button ctx = record ctx { button_text = if ctx.country == "CN" then "立即下载" else "Install Now" }

module _ (fl : Float64) where
  -- the caps of a slot; `coin` is the draw in SlotImpInCap
  unfoldable pub in_video_caps : fl.F → SlotInfo fl.F → Context → Bool
  in_video_caps coin tpl ctx =
      if is_rewarded_video ctx
      then video_in_request_cap ctx
        && (video_in_complete_cap ctx tpl.video_freq_cap
            && slot_imp_in_cap fl coin tpl tpl.max_complete)
      else slot_imp_in_cap fl coin tpl tpl.max_impression

  -- videoAdHandler from the slot on: `rate_coin` and `cap_coin` are draws of rand.Float64()
  unfoldable pub video_slot_gate :
      VideoTrackConf → CacheReads → fl.F → fl.F → SlotInfo fl.F → Context → Run (VideoGate fl.F)
  video_slot_gate conf reads rate_coin cap_coin tpl ctx =
      let read = get_freq reads ctx in
      if fl.less tpl.impression_rate rate_coin
      then ok (answered (new_rtv_resp "no match ad" 5))
      else if not (in_video_caps cap_coin tpl read)
      then ok (
          answered (
            new_rtv_resp
              (if is_rewarded_video read
                then "user reach freq cap of slot or slot reach complete cap"
                else "slot reach impression cap")
              1))
      else do
        tks ← set_video_ctx_tks conf read
        ok (
            if eqb_ℤ (ctx.img_h *ℤ ctx.img_w) (pos 0)
            then answered (new_rtv_resp "missing required parameter imgw or imgh" 6)
            else goes_on tpl (with_video_slot tpl read) tks)

  -- videoAdHandler up to the search
  unfoldable pub video_gate :
      VideoTrackConf
      → CacheReads
      → fl.F
      → fl.F
      → Bool
      → Option (Dict (SlotInfo fl.F))
      → Context
      → Run (VideoGate fl.F)
  unfolding video_slot_gate
  video_gate conf reads rate_coin cap_coin has_dnf store ctx =
      if not has_dnf
      then ok (answered (new_rtv_resp "dnf handler nil" 2))
      else elim (get_video_tpl_and_update_slot store (with_button ctx)) [
        | none ↦ ok (answered (new_rtv_resp "no active video slot matched" 5))
        | some (tpl, ctx') ↦ video_slot_gate conf reads rate_coin cap_coin tpl ctx'
      ]

  -- the filter of the search; `coins` gives the draw in adSearch for each offer
  unfoldable pub video_filter :
      (String → String → Bool)
      → (RawAd fl.F → fl.F)
      → SlotInfo fl.F
      → RawAd fl.F
      → Context
      → Context × Bool
  video_filter contains coins tpl raw ctx =
      let refuse : String → Context × Bool = λ msg. (debug raw.uniq_id msg ctx, false) in
      let found = ad_search fl (coins raw) raw ctx tpl in
      if not found.1
      then refuse found.0
      else if app_category_in_black_list contains tpl raw.app_category
      then refuse "slot black cat"
      else if ctx.ad_type == "7" && not (is_hit_channel_type raw "4")
      then refuse "channel type"
      else if is_ios_installed_pkg ctx raw.pkg_name
      then refuse "installed"
      else if not (is_some (get_video_by_cids fl raw ctx.cid_map))
      then refuse "no matched video"
      else (ctx, true)

  -- handler.Search: the offers that meet the conditions are filtered one by one
  unfoldable pub video_search :
      (String → String → Bool)
      → (RawAd fl.F → fl.F)
      → SlotInfo fl.F
      → List (RawAd fl.F)
      → Context
      → Context × List (RawAd fl.F)
  unfolding video_filter
  video_search contains coins tpl [] ctx = (ctx, [])
  video_search contains coins tpl (raw ∷ raws) ctx =
      let verdict = video_filter contains coins tpl raw ctx in
      let rest = video_search contains coins tpl raws verdict.0 in
      (rest.0, if verdict.1 then raw ∷ rest.1 else rest.1)
