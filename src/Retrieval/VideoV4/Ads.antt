-- ===== src/Retrieval/VideoV4/Ads.antt =====
-- retrieval/video_v4.go: videoAdHandler as a whole, with ToVideoV4Ad of raw_ad/raw_video_v4_ad_obj.go.
use real_api_server.Prelude.{
  ℕ, String, Bool, Option, none, some, List, [], ◌∷◌, ◌++◌, length, take, ltb, nat_eq, ◌==◌,
  if◌then◌else◌,
}
use real_api_server.Prelude.Dict.{Dict}
use real_api_server.Prelude.Float.{Float64}
use real_api_server.Prelude.Run.{Run, ok, panic, ◌>>=◌}
use real_api_server.HttpContext.{Context, CacheReads}
use real_api_server.RawAd.{RawAd}
use real_api_server.RawAd.Image.{Img}
use real_api_server.RawAd.Click.{click_url}
use real_api_server.RawAd.Videos.{Video}
use real_api_server.RawAd.Media.{video_chose_creatives, get_matched_icon}
use real_api_server.Ssp.{SlotInfo}
use real_api_server.Rank.Video.{VideoAnswer, select_videos}
use real_api_server.Util.Shuffle.{shuffle}
use real_api_server.Retrieval.{Cond, make_retrieval_conditions}
use real_api_server.Retrieval.VideoV4.{
  VideoTrackConf, VideoAd, VideoResp, new_rtv_resp, VideoGate, answered, goes_on, video_gate,
  video_search,
}

-- What the handler reads and draws: the configured trackers, the store, which is `none` before it is
-- loaded, the cache, whether the index is loaded and what it finds for conditions, the rank server,
-- and the functions of texts; `coins` and `pics` are the draws for an offer.
pub record VideoEnv (fl : Float64) : Type 0 where
  pub conf : VideoTrackConf
  pub store : Option (Dict (SlotInfo fl.F))
  pub reads : CacheReads
  pub has_dnf : Bool
  pub index : List Cond → List (RawAd fl.F)
  pub ask : List (RawAd fl.F) → Context → Option (VideoAnswer fl.F)
  pub contains : String → String → Bool
  pub major : String → String
  pub fmt_e : fl.F → String
  pub fmt_po : fl.F → String
  pub has_prefix : String → String → Bool
  -- strings.Split of a track link at "?"
  pub split : String → List String
  pub rate_coin : fl.F
  pub cap_coin : fl.F
  pub coins : RawAd fl.F → fl.F
  pub pics : RawAd fl.F → ℕ → ℕ → Bool
  pub icon_draws : RawAd fl.F → ℕ → ℕ
  pub shuffled : ℕ → ℕ
  pub draw : ℕ → ℕ → ℕ

-- rankLimitCap, rankUseGzipCap
abbrev pub rank_limit_cap : ℕ
rank_limit_cap = 1000

abbrev pub rank_use_gzip_cap : ℕ
rank_use_gzip_cap = 100

-- ToVideoV4Ad from its choices on; `click` is the call of the generator of click urls, if there is
-- one. The url of an icon that is nil panics
unfoldable pub make_ad :
    String
    → String
    → Option (Run (Unit {0}))
    → Option Video
    → Option Img
    → Option Img
    → Run (Option VideoAd)
make_ad id slot none video img icon = ok none
make_ad id slot (some panic) video img icon = panic
make_ad id slot (some (ok u)) none img icon = ok none
make_ad id slot (some (ok u)) (some v) none icon = ok none
make_ad id slot (some (ok u)) (some v) (some img) none = panic
make_ad id slot (some (ok u)) (some v) (some img) (some icon) =
    ok (some (record { id = id; slot = slot; video = v; img = img; icon = icon }))

-- what an ad of an offer adds to the answer
unfoldable pub with_ad : {F : Type 0} → RawAd F → Option VideoAd → VideoResp → VideoResp
with_ad raw none resp = resp
with_ad raw (some adv) resp = record resp {
  ad_list = resp.ad_list ++ adv ∷ [];
  offers = resp.offers ++ raw.uniq_id ∷ [];
}

module _ (fl : Float64) (env : VideoEnv fl) where
  unfoldable pub icon_of : Context → RawAd fl.F → Option Img
  icon_of ctx raw =
      get_matched_icon fl (env.icon_draws raw 0) (env.icon_draws raw 1) (env.icon_draws raw 2)
        (env.icon_draws raw 3) raw ctx.lang

  -- ToVideoV4Ad
  unfoldable pub to_video_v4_ad : Context → RawAd fl.F → Run (Option VideoAd)
  unfolding icon_of make_ad
  to_video_v4_ad ctx raw =
      let chosen = (video_chose_creatives fl (env.pics raw) ctx raw).1 in
      make_ad raw.id ctx.slot_id (click_url env.has_prefix env.split raw) chosen.video_chosen
        chosen.image_chosen (icon_of ctx raw)

  -- the loop over the offers that the ranking chose
  unfoldable pub add_ads : Context → List (RawAd fl.F) → VideoResp → Run VideoResp
  unfolding to_video_v4_ad with_ad
  add_ads ctx [] resp = ok resp
  add_ads ctx (raw ∷ raws) resp = do
    adv ← to_video_v4_ad ctx raw
    add_ads ctx raws (with_ad raw adv resp)

  -- the handler from the choice of the ranking on
  unfoldable pub answer_chosen : Context → List (RawAd fl.F) → Run VideoResp
  unfolding add_ads
  answer_chosen ctx [] = ok (new_rtv_resp "No rank ads" 1)
  answer_chosen ctx (raw ∷ raws) = do
    resp ← add_ads ctx (raw ∷ raws) (new_rtv_resp "ok" 0)
    ok (if length resp.ad_list == 0 then new_rtv_resp "no video ad suggestted" 6 else resp)

  -- the handler from the offers found on
  unfoldable pub answer_with : Context → List (RawAd fl.F) → Run VideoResp
  unfolding answer_chosen
  answer_with ctx [] = ok (new_rtv_resp "No ads" 1)
  answer_with ctx (doc ∷ docs) =
      let raw_list = take rank_limit_cap (shuffle env.shuffled (doc ∷ docs)) in
      let ctx' = record ctx { rank_use_gzip = ltb rank_use_gzip_cap (length raw_list) } in
      do
        raws ← select_videos env.fmt_e env.fmt_po env.draw env.ask raw_list ctx'
        answer_chosen ctx' raws

  -- the handler after its checks
  unfoldable pub after_gate : VideoGate fl.F → Run VideoResp
  unfolding answer_with
  after_gate (answered resp) = ok resp
  after_gate (goes_on tpl ctx tks) =
      let found =
        video_search fl env.contains env.coins tpl
          (env.index (make_retrieval_conditions env.major ctx)) ctx in
      answer_with found.0 found.1

  -- videoAdHandler once NewContext has made the context
  unfoldable pub video_ad_handler : Context → Run VideoResp
  unfolding after_gate
  video_ad_handler ctx = do
    gate ← video_gate fl env.conf env.reads env.rate_coin env.cap_coin env.has_dnf env.store ctx
    after_gate gate
