-- ===== src/Retrieval/NativeV4.antt =====
-- retrieval/video_v4.go: videov4NativeHandler from a context on, with the choices of
-- ToNativeVideoV4Ad of raw_ad/raw_video_v4_ad_obj.go.
pub mod Found
pub mod Answer
use Prim.Native.String.{◌++◌ as concat}
use real_api_server.Prelude.{
  ℕ, String, Bool, true, false, not, ◌&&◌, Option, none, some, List, [], ◌∷◌, ◌++◌, length, take,
  ltb, ◌==◌, nat_eq, if◌then◌else◌,
}
use real_api_server.Prelude.Int.{ℤ, pos, eqb_ℤ, ◌*ℤ◌}
use real_api_server.Prelude.Dict.{Dict}
use real_api_server.Prelude.Float.{Float64}
use real_api_server.Prelude.Run.{Run, ok, panic, ◌>>=◌}
use real_api_server.HttpContext.{
  Context, CacheReads, get_freq, in_freq_cap, is_ios_installed_pkg, debug,
}
use real_api_server.RawAd.{RawAd, is_hit_channel_type}
use real_api_server.RawAd.Image.{Img}
use real_api_server.RawAd.Click.{click_url}
use real_api_server.RawAd.Videos.{Video}
use real_api_server.RawAd.Media.{try_get_matched_video, get_matched_icon, has_matched_native_video}
use real_api_server.RawAd.Media.Creative.{get_matched_creative}
use real_api_server.Ssp.{SlotInfo}
use real_api_server.Ssp.Slots.{app_category_in_black_list, match_ssp_format}
use real_api_server.Rank.{Conf, PostReq, PostResp, select}
use real_api_server.Util.Shuffle.{shuffle}
use real_api_server.Retrieval.{Cond, ad_search, make_retrieval_conditions}
use real_api_server.Retrieval.VideoV4.{
  VideoTrackConf, VideoAd, VideoResp, new_rtv_resp, set_video_ctx_tks,
  get_video_tpl_and_update_slot,
}
use real_api_server.Retrieval.VideoV4.Ads.{with_ad, rank_limit_cap, rank_use_gzip_cap}

-- What the handler reads and draws, as in VideoEnv, with the rank server and its configuration. The
-- draws for an offer stand under the number of the call.
pub record NativeEnv (fl : Float64) : Type 0 where
  pub conf : VideoTrackConf
  pub store : Option (Dict (SlotInfo fl.F))
  pub reads : CacheReads
  pub has_dnf : Bool
  pub index : List Cond → List (RawAd fl.F)
  pub rank_conf : Conf
  pub i_host : ℕ
  pub ask : String → ℕ → PostReq fl.F → Option (PostResp fl.F)
  pub atoi : String → Option ℤ
  pub contains : String → String → Bool
  pub major : String → String
  pub fmt_e : fl.F → String
  pub fmt_po : fl.F → String
  pub has_prefix : String → String → Bool
  -- strings.Split of a track link at "?"
  pub split : String → List String
  -- whether vast_module.NativeV4 gives a text for the ad
  pub has_vast : VideoAd → Bool
  pub rate_coin : fl.F
  pub coins : RawAd fl.F → fl.F
  pub pics : RawAd fl.F → ℕ → ℕ → ℕ → Bool
  pub icon_draws : RawAd fl.F → ℕ → ℕ
  pub shuffled : ℕ → ℕ

-- a request that is answered, or one that goes on to the search
pub data NativeGate (F : Type 0) : Type 0 where
  answered : VideoResp → NativeGate F
  goes_on : SlotInfo F → Context → NativeGate F

-- ToNativeVideoV4Ad from its choices on; `click` is the call of the generator of click urls, if
-- there is one
unfoldable pub make_native :
    (VideoAd → Bool)
    → String
    → String
    → Option (Run (Unit {0}))
    → Option Video
    → Option Img
    → Option Img
    → Run (Option VideoAd)
make_native has_vast id slot none video img icon = ok none
make_native has_vast id slot (some panic) video img icon = panic
make_native has_vast id slot (some (ok u)) none img icon = ok none
make_native has_vast id slot (some (ok u)) (some v) none icon = ok none
make_native has_vast id slot (some (ok u)) (some v) (some img) none = ok none
make_native has_vast id slot (some (ok u)) (some v) (some img) (some icon) =
    let adv : VideoAd = record { id = id; slot = slot; video = v; img = img; icon = icon } in
    ok (if has_vast adv then some adv else none)

-- what the handler sets before the search
unfoldable pub with_native : Context → Context
with_native ctx = record ctx {
  ad_type = "6";
  video_screen_type = 1;
  pkg_name = concat ctx.pkg_name "(vdo6)";
}

module _ (fl : Float64) (env : NativeEnv fl) where
  -- from the slot on
  unfoldable pub native_slot_gate : SlotInfo fl.F → Context → NativeGate fl.F
  native_slot_gate tpl ctx =
      let timed = record ctx { load_time = tpl.load_time; click_time = tpl.click_time } in
      if not (match_ssp_format tpl 8)
      then answered (new_rtv_resp "not native video slot" 5)
      else if fl.less tpl.impression_rate env.rate_coin
      then answered (new_rtv_resp "no match ad" 5)
      else if eqb_ℤ (ctx.img_h *ℤ ctx.img_w) (pos 0)
      then answered (new_rtv_resp "missing required parameter imgw or imgh" 6)
      else goes_on tpl (with_native (get_freq env.reads timed))

  unfoldable pub native_gate : Context → NativeGate fl.F
  unfolding native_slot_gate
  native_gate ctx =
      if not env.has_dnf
      then answered (new_rtv_resp "dnf handler nil" 2)
      else elim (get_video_tpl_and_update_slot env.store ctx) [
        | none ↦ answered (new_rtv_resp "no active video slot matched" 5)
        | some (tpl, ctx') ↦ native_slot_gate tpl ctx'
      ]

  -- the filter of the search
  unfoldable pub native_filter : SlotInfo fl.F → RawAd fl.F → Context → Context × Bool
  native_filter tpl raw ctx =
      let refuse : String → Context × Bool = λ msg. (debug raw.uniq_id msg ctx, false) in
      let found = ad_search fl (env.coins raw) raw ctx tpl in
      if not found.1
      then refuse found.0
      else if app_category_in_black_list env.contains tpl raw.app_category
      then refuse "slot black cat"
      else if not (in_freq_cap ctx raw.pkg_name (pos 5)).0
      then refuse "imp frequency"
      else if not (is_hit_channel_type raw "3")
      then refuse "channel type"
      else if is_ios_installed_pkg ctx raw.pkg_name
      then refuse "installed"
      else if not (
          has_matched_native_video fl (env.pics raw 0) (env.pics raw 1) (env.icon_draws raw 0)
            (env.icon_draws raw 1) (env.icon_draws raw 2) (env.icon_draws raw 3) raw ctx)
      then refuse "no matched native video"
      else (ctx, true)

  unfoldable pub native_search :
      SlotInfo fl.F → List (RawAd fl.F) → Context → Context × List (RawAd fl.F)
  unfolding native_filter
  native_search tpl [] ctx = (ctx, [])
  native_search tpl (raw ∷ raws) ctx =
      let verdict = native_filter tpl raw ctx in
      let rest = native_search tpl raws verdict.0 in
      (rest.0, if verdict.1 then raw ∷ rest.1 else rest.1)

  -- ToNativeVideoV4Ad
  unfoldable pub to_native_video_v4_ad : Context → RawAd fl.F → Run (Option VideoAd)
  unfolding make_native
  to_native_video_v4_ad ctx raw =
      make_native env.has_vast raw.id ctx.slot_id (click_url env.has_prefix env.split raw)
        (try_get_matched_video fl raw ctx)
        (get_matched_creative fl (env.pics raw 2) (env.pics raw 3) raw ctx.lang ctx.img_w ctx.img_h
          ctx.img_rule)
        (get_matched_icon fl (env.icon_draws raw 4) (env.icon_draws raw 5) (env.icon_draws raw 6)
          (env.icon_draws raw 7) raw ctx.lang)

  -- the loop over the offers that the ranking chose
  unfoldable pub add_natives : Context → List (RawAd fl.F) → VideoResp → Run VideoResp
  unfolding to_native_video_v4_ad
  add_natives ctx [] resp = ok resp
  add_natives ctx (raw ∷ raws) resp = do
    adv ← to_native_video_v4_ad ctx raw
    add_natives ctx raws (with_ad raw adv resp)

  unfoldable pub native_chosen : Context → List (RawAd fl.F) → Run VideoResp
  unfolding add_natives
  native_chosen ctx [] = ok (new_rtv_resp "No ads" 1)
  native_chosen ctx (raw ∷ raws) = do
    tks ← set_video_ctx_tks env.conf ctx
    resp ← add_natives ctx (raw ∷ raws) (new_rtv_resp "ok" 0)
    ok (if length resp.ad_list == 0 then new_rtv_resp "no video ad suggestted" 6 else resp)

  -- the handler from the offers found on
  unfoldable pub native_with : Context → List (RawAd fl.F) → Run VideoResp
  unfolding native_chosen
  native_with ctx [] = ok (new_rtv_resp "No ads" 1)
  native_with ctx (doc ∷ docs) =
      let raw_list = take rank_limit_cap (shuffle env.shuffled (doc ∷ docs)) in
      select env.fmt_e env.fmt_po env.atoi env.rank_conf env.ask raw_list
        (record ctx { rank_use_gzip = ltb rank_use_gzip_cap (length raw_list) }) env.i_host
      >>= λ (raws, ctx', i_host). native_chosen ctx' raws

  unfoldable pub after_native : NativeGate fl.F → Run VideoResp
  unfolding native_with
  after_native (answered resp) = ok resp
  after_native (goes_on tpl ctx) =
      let found = native_search tpl (env.index (make_retrieval_conditions env.major ctx)) ctx in
      native_with found.0 found.1

  -- videov4NativeHandler once NewContext has made the context
  unfoldable pub videov4_native_handler : Context → Run VideoResp
  unfolding after_native native_gate
  videov4_native_handler ctx = after_native (native_gate ctx)
