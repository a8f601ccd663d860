-- ===== src/Retrieval/Tracks.antt =====
-- retrieval/service.go: the trackers that SetCtxTks sets. Tracks has the fields of the context that it
-- writes, TrackConf those of the configuration that it reads.
use real_api_server.Prelude.{String, Bool, not, ◌&&◌, List, [], ◌∷◌, ◌==◌, string_eq, if◌then◌else◌}
use real_api_server.Prelude.Run.{Run, ok, panic}
use real_api_server.HttpContext.{Context}

record Tracks : Type 0 where
  pre_imp_tks : List String
  post_imp_tks : List String
  post_imp_tks_debug : List String
  pre_clk_tks : List String
  post_clk_tks : List String
  post_clk_tks_debug : List String
  vast_server_api : String
  vast_js_url : String

record TrackConf : Type 0 where
  ios_pre_imp_tks : List String
  ios_post_imp_tks : List String
  ios_pre_clk_tks : List String
  ios_post_clk_tks : List String
  android_pre_imp_tks : List String
  android_post_imp_tks : List String
  android_pre_clk_tks : List String
  android_post_clk_tks : List String
  vast_server_api : String
  vast_js_url : String
  vast_js_url_cn : String

-- copy(dst, src): as many entries as both have are written
copy_into : List String → List String → List String
copy_into [] src = []
copy_into (d ∷ dst) [] = d ∷ dst
copy_into (d ∷ dst) (s ∷ src) = s ∷ copy_into dst src

-- the ad types 3, 4 and 9 send no click logs
sends_clicks : Context → Bool
sends_clicks ctx =
    not (ctx.ad_type == "3") && (not (ctx.ad_type == "4") && not (ctx.ad_type == "9"))

ios_tracks : TrackConf → Context → Tracks → Tracks
unfolding sends_clicks
ios_tracks conf ctx tks =
    let shown = record tks {
      pre_imp_tks = conf.ios_pre_imp_tks;
      post_imp_tks = conf.ios_post_imp_tks;
      post_imp_tks_debug = "http://log.ambimob.com/ios/v1/impression" ∷ [];
    } in
    if sends_clicks ctx
    then record shown {
      pre_clk_tks = conf.ios_pre_clk_tks;
      post_clk_tks = conf.ios_post_clk_tks;
      post_clk_tks_debug = "http://log.ambimob.com/ios/v1/click" ∷ [];
    }
    else shown

android_tracks : TrackConf → Context → Tracks → Tracks
unfolding copy_into sends_clicks
android_tracks conf ctx tks =
    let shown = record tks {
      pre_imp_tks = copy_into tks.pre_imp_tks conf.android_pre_imp_tks;
      post_imp_tks = conf.android_post_imp_tks;
      post_imp_tks_debug = "http://log.ambimob.com/android/v1/impression" ∷ [];
    } in
    if sends_clicks ctx
    then record shown {
      pre_clk_tks = conf.android_pre_clk_tks;
      post_clk_tks = conf.android_post_clk_tks;
      post_clk_tks_debug = "http://log.ambimob.com/android/v1/click" ∷ [];
    }
    else shown

-- the part for the new interstitials
vast_tracks : TrackConf → Context → Tracks → Tracks
vast_tracks conf ctx tks =
    if ctx.ad_type == "15"
    then record tks {
      vast_server_api = conf.vast_server_api;
      vast_js_url = if ctx.country == "CN" then conf.vast_js_url_cn else conf.vast_js_url;
    }
    else tks

unfoldable set_ctx_tks : TrackConf → Context → Tracks → Run Tracks
unfolding ios_tracks android_tracks vast_tracks
set_ctx_tks conf ctx tks =
    if ctx.platform == "iOS"
    then ok (vast_tracks conf ctx (ios_tracks conf ctx tks))
    else if ctx.platform == "Android"
    then ok (vast_tracks conf ctx (android_tracks conf ctx tks))
    else panic

-- httpsReplaceCopy; `has_prefix` is strings.HasPrefix with "https", `replace` the replacement of the
-- first "http" by "https"
unfoldable https_replace_copy : (String → Bool) → (String → String) → List String → List String
https_replace_copy has_prefix replace [] = []
https_replace_copy has_prefix replace (tk ∷ tracks) =
    (if has_prefix tk then tk else replace tk) ∷ https_replace_copy has_prefix replace tracks
