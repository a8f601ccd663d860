-- ===== src/Retrieval/VideoV4/Answer.antt =====
-- What videoAdHandler answers.
use real_api_server.Prelude.{
  ◌<◌, ◌≡◌, ◌⊎◌, true, false, some, List, length, nat_eq, string_eq, Within,
}
use real_api_server.Prelude.Float.{Float64}
use real_api_server.HttpContext.{Context, get_freq}
use real_api_server.RawAd.{RawAd}
use real_api_server.Ssp.{SlotInfo, is_active_video_slot}
use real_api_server.Rank.{slice_limit}
use real_api_server.Rank.Video.{VideoAnswer}
use real_api_server.Prelude.Int.{pos_part}
use real_api_server.Prelude.{◌≤◌}
use real_api_server.Retrieval.{make_retrieval_conditions}
use real_api_server.Retrieval.VideoV4.{
  VideoResp, VideoGate, answered, goes_on, in_video_caps, with_button,
  get_video_tpl_and_update_slot,
}
use real_api_server.Retrieval.VideoV4.Ads.{VideoEnv}
use real_api_server.Retrieval.VideoV4.Found.{passes}
use real_api_server.Retrieval.VideoV4.Shown.{Listed, Refused}

module _ (fl : Float64) (env : VideoEnv fl) where
  -- The rank server announces no more offers than a slice may have.
  abbrev pub Fits : Type 0
  Fits =
      (raws : List (RawAd fl.F)) (ctx : Context) (rep : VideoAnswer fl.F)
      → env.ask raws ctx ≡ some rep
      → pos_part rep.tot ≤ slice_limit

  -- The offers that the index has for the conditions of a request and that the filter admits.
  abbrev pub Admitted : SlotInfo fl.F → Context → RawAd fl.F → Type 0
  Admitted tpl ctx raw =
      Within raw (env.index (make_retrieval_conditions env.major ctx))
      × (passes fl env.contains env.coins tpl raw ctx ≡ true)

  -- The slot of the request: it is active, shown by the draw and within its caps, and the request
  -- goes on with its id and its creatives.
  abbrev pub SlotOf : Context → SlotInfo fl.F → Context → Type 0
  SlotOf asked tpl ctx =
      (get_video_tpl_and_update_slot env.store (with_button asked)
        ≡ some (tpl, record (with_button asked) { slot_id = tpl.id_str }))
      × (is_active_video_slot tpl ≡ true)
      × (fl.less tpl.impression_rate env.rate_coin ≡ false)
      × (in_video_caps fl env.cap_coin tpl
            (get_freq env.reads (record (with_button asked) { slot_id = tpl.id_str }))
          ≡ true)
      × (ctx.slot_id ≡ tpl.id_str)
      × (ctx.cid_map ≡ asked.cid_map)
      × (ctx.ad_num ≡ asked.ad_num)

  -- An error without ads and offers; or at least one ad, for the slot of the request, of offers that
  -- the search finds and the filter admits.
  abbrev pub Answers : Context → VideoResp → Type 0
  Answers asked resp =
      Refused resp
      ⊎ ((tpl : SlotInfo fl.F) × (ctx : Context) × SlotOf asked tpl ctx
          × (0 < length resp.ad_list)
          × Listed fl env (Admitted tpl ctx) ctx resp)

  abbrev Gated : Context → VideoGate fl.F → Type 0
  Gated asked (answered resp) = Refused resp
  Gated asked (goes_on tpl ctx tks) = SlotOf asked tpl ctx
