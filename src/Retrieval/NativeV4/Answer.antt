-- ===== src/Retrieval/NativeV4/Answer.antt =====
-- What videov4NativeHandler answers.
use real_api_server.Prelude.{◌<◌, ◌≡◌, ◌⊎◌, some, length, nat_eq}
use real_api_server.Prelude.Float.{Float64}
use real_api_server.HttpContext.{Context}
use real_api_server.RawAd.{RawAd}
use real_api_server.Ssp.{SlotInfo}
use real_api_server.Rank.{slice_limit, PostReq, PostResp}
use real_api_server.RawAd.Click.{Linked}
use real_api_server.Prelude.{◌≤◌, String, ℕ}
use real_api_server.Prelude.Run.{Run}
use real_api_server.Prelude.Int.{pos_part}
use real_api_server.Retrieval.VideoV4.{VideoAd, VideoResp}
use real_api_server.Retrieval.VideoV4.Shown.{Refused}
use real_api_server.Retrieval.NativeV4.{NativeEnv, NativeGate, answered, goes_on}
use real_api_server.Retrieval.NativeV4.Found.{Filled, Admitted, SlotOf, NativeAd}

module _ (fl : Float64) (env : NativeEnv fl) where
  -- An offer as the index has it: a click url can be made.
  abbrev pub Stored : RawAd fl.F → Type 0
  Stored raw = Linked env.has_prefix env.split raw

  -- An error without ads, or ads with `P`.
  abbrev Served : (VideoAd → Type 0) → VideoResp → Type 0
  Served P resp = Refused resp ⊎ ((0 < length resp.ad_list) × Filled P resp)

  -- A rank server is configured, and announces no more offers than a slice may have.
  abbrev pub Ranks : Type 0
  Ranks =
      (0 < length env.rank_conf.rank_apis)
      × ((api : String) (user : ℕ) (post : PostReq fl.F) (rep : PostResp fl.F)
          → env.ask api user post ≡ some rep
          → pos_part rep.tot ≤ slice_limit)

  abbrev Gated : Context → NativeGate fl.F → Type 0
  Gated asked (answered resp) = Refused resp
  Gated asked (goes_on tpl ctx) = SlotOf fl env asked tpl ctx

  -- An error without ads and offers; or at least one ad, for the slot of the request, of offers that
  -- the index has and the filter admits, in channels with click urls.
  abbrev pub Answers : Context → VideoResp → Type 0
  Answers asked resp =
      Refused resp
      ⊎ ((tpl : SlotInfo fl.F) × (ctx : Context) × SlotOf fl env asked tpl ctx
          × (0 < length resp.ad_list)
          × Filled (NativeAd fl env (Admitted fl env tpl ctx) ctx.slot_id) resp)
