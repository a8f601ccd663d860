-- ===== src/Retrieval/VideoV4/Shown.antt =====
-- The ads that videoAdHandler makes of the offers that the ranking chose.
use real_api_server.Prelude.{
  ◌<◌, ◌≡◌, ◌≢◌, ◌⊎◌, inl, inr, refl, sym, subst, ◌∙◌, ap, String, true, Option, none, some, List,
  [], ◌∷◌, arith, length, length-append, is_some, Bool-cases, ◌==◌, nat_eq, if◌then◌else◌, All,
  All-append_one,
}
use real_api_server.Prelude.Float.{Float64}
use real_api_server.Prelude.Run.{Returns, Returns->>=, Returns-imp}
use real_api_server.HttpContext.{Context}
use real_api_server.RawAd.{RawAd}
use real_api_server.RawAd.Image.{Img}
use real_api_server.RawAd.Click.{click_url, Clicks, Linked, click_url-Clicks}
use real_api_server.Prelude.Run.{Run, ok, panic}
use real_api_server.RawAd.Videos.{Video, video_of}
use real_api_server.RawAd.Media.{under, or_else, video_chose_creatives}
use real_api_server.RawAd.Media.Icons.{Full, get_matched_icon-is_some, video_chose_creatives-video}
use real_api_server.Rank.Video.Choice.{Held, Copy, video_of-Within}
use real_api_server.Retrieval.VideoV4.{VideoAd, VideoResp, new_rtv_resp}
use real_api_server.Retrieval.VideoV4.Ads.{
  VideoEnv, make_ad, icon_of, to_video_v4_ad, with_ad, add_ads, answer_chosen,
}

-- No ad, or one with `P`.
abbrev Maybe : (VideoAd → Type 0) → Option VideoAd → Type 0
Maybe P none = Unit
Maybe P (some adv) = P adv

Maybe-imp :
    (P Q : VideoAd → Type 0) (o : Option VideoAd)
    → ((adv : VideoAd) → P adv → Q adv)
    → Maybe P o
    → Maybe Q o
Maybe-imp P Q none f h = tt
Maybe-imp P Q (some adv) f h = f adv h

make_ad-Returns :
    (id slot : String) (click : Option (Run (Unit {0}))) (v : Option Video) (img icon : Option Img)
    (Q : Video → Type 0)
    → ((w : Video) → v ≡ some w → Q w)
    → is_some icon ≡ true
    → Clicks click
    → Returns
        (Maybe (λ adv. (adv.id ≡ id) × (adv.slot ≡ slot) × Q adv.video))
        (make_ad id slot click v img icon)
unfolding make_ad
make_ad-Returns id slot none v img icon Q q h c = tt
make_ad-Returns id slot (some panic) v img icon Q q h c = absurd c
make_ad-Returns id slot (some (ok u)) none img icon Q q h c = tt
make_ad-Returns id slot (some (ok u)) (some v) none icon Q q h c = tt
make_ad-Returns id slot (some (ok u)) (some v) (some img) none Q q h c = ground arith
make_ad-Returns id slot (some (ok u)) (some v) (some img) (some icon) Q q h c =
    (refl, refl, q v refl)

chosen-Held :
    (ctx : Context) (videos : List Video) (v : Option Video) {w : Video}
    → (v ≡ none) ⊎ ((u : Video) × (v ≡ some u) × Held ctx videos u)
    → or_else v (video_of ctx.cid_map videos) ≡ some w
    → Held ctx videos w
unfolding or_else
chosen-Held ctx videos none k h = video_of-Within ctx.cid_map videos h
chosen-Held ctx videos (some u) (inl e) h = cc
chosen-Held ctx videos (some u) (inr (t, e, held)) h = subst (Held ctx videos) (cc) held

-- An answer that is an error and has no ad.
abbrev pub Refused : VideoResp → Type 0
Refused resp = (resp.err_no ≢ 0) × (resp.ad_list ≡ []) × (resp.offers ≡ [])

module _ (fl : Float64) (env : VideoEnv fl) where
  -- An offer as the index has it: no video is chosen, there is an icon for every language, and
  -- a click url can be made.
  abbrev pub Stored : RawAd fl.F → Type 0
  Stored raw = (raw.video_chosen ≡ none) × Full raw.icons × Linked env.has_prefix env.split raw

  -- An ad of an offer with `S`, for the slot of the request, with a video of the offer that the
  -- client has.
  abbrev pub AdOf : (RawAd fl.F → Type 0) → Context → VideoAd → Type 0
  AdOf S ctx adv =
      (raw : RawAd fl.F) × S raw
      × (adv.id ≡ raw.id)
      × (adv.slot ≡ ctx.slot_id)
      × Held ctx (under "ALL" raw.videos) adv.video

  to_video_v4_ad-Returns :
      (S : RawAd fl.F → Type 0) (ctx : Context) (raw out : RawAd fl.F)
      → S raw
      → Stored raw
      → Copy ctx raw out
      → Returns (Maybe (AdOf S ctx)) (to_video_v4_ad fl env ctx out)
  unfolding to_video_v4_ad icon_of
  to_video_v4_ad-Returns S ctx raw out s stored copy =
      let (args, v, e, from) = copy in
      let chosen : (w : Video)
          → (video_chose_creatives fl (env.pics out) ctx out).1.video_chosen ≡ some w
          → Held ctx (under "ALL" raw.videos) w =
        λ w h.
          chosen-Held ctx (under "ALL" raw.videos) v
            (elim from [ inl q ↦ inl (q ∙ stored.0) | inr q ↦ inr q ])
            (sym (
                ap
                  (λ (r : RawAd fl.F).
                    or_else r.video_chosen (video_of ctx.cid_map (under "ALL" r.videos)))
                  e)
              ∙ sym (video_chose_creatives-video fl (env.pics out) ctx out)
              ∙ h) in
      let icon =
        get_matched_icon-is_some fl (env.icon_draws out 0) (env.icon_draws out 1)
          (env.icon_draws out 2) (env.icon_draws out 3) out ctx.lang
          (subst (λ (r : RawAd fl.F). Full r.icons) (sym e) stored.1) in
      let clicks =
        click_url-Clicks env.has_prefix env.split out
          (subst (λ (r : RawAd fl.F). Linked env.has_prefix env.split r) (sym e) stored.2) in
      Returns-imp _ _ (to_video_v4_ad fl env ctx out)
        (λ o.
          Maybe-imp _ _ o
            (λ adv (i, t, held). (raw, s, i ∙ ap (λ (r : RawAd fl.F). r.id) e, t, held)))
        (make_ad-Returns out.id ctx.slot_id (click_url env.has_prefix env.split out) _ _ _
          (Held ctx (under "ALL" raw.videos)) chosen icon clicks)

  -- The ads and the ids of their offers are as many, and each ad is of an offer with `S`.
  abbrev pub Listed : (RawAd fl.F → Type 0) → Context → VideoResp → Type 0
  Listed S ctx resp =
      (resp.err_no ≡ 0) × (length resp.offers ≡ length resp.ad_list) × All (AdOf S ctx) resp.ad_list

  with_ad-Listed :
      (S : RawAd fl.F → Type 0) (ctx : Context) (out : RawAd fl.F) (o : Option VideoAd)
      (resp : VideoResp)
      → Maybe (AdOf S ctx) o
      → Listed S ctx resp
      → Listed S ctx (with_ad out o resp)
  unfolding with_ad
  with_ad-Listed S ctx out none resp a h = h
  with_ad-Listed S ctx out (some adv) resp a (z, n, h) = (
    z,
    omega (
      arith,
      n,
      length-append resp.offers (out.uniq_id ∷ []),
      length-append resp.ad_list (adv ∷ []),
    ),
    All-append_one (AdOf S ctx) resp.ad_list adv h a,
  )

  add_ads-Returns :
      (S : RawAd fl.F → Type 0) (ctx : Context) (outs : List (RawAd fl.F)) (resp : VideoResp)
      → All (λ out. (raw : RawAd fl.F) × (S raw × Stored raw) × Copy ctx raw out) outs
      → Listed S ctx resp
      → Returns (Listed S ctx) (add_ads fl env ctx outs resp)
  unfolding add_ads
  add_ads-Returns S ctx [] resp a h = h
  add_ads-Returns S ctx (out ∷ outs) resp ((raw, (s, stored), copy), a) h =
      Returns->>= (Maybe (AdOf S ctx)) (Listed S ctx) (to_video_v4_ad fl env ctx out) _
        (to_video_v4_ad-Returns S ctx raw out s stored copy)
        (λ o m.
          add_ads-Returns S ctx outs (with_ad out o resp) a (with_ad-Listed S ctx out o resp m h))

  -- An answer that is an error and has no ad, or one with ads of offers with `S`.
  abbrev pub Answered : (RawAd fl.F → Type 0) → Context → VideoResp → Type 0
  Answered S ctx resp = Refused resp ⊎ ((0 < length resp.ad_list) × Listed S ctx resp)

  Listed-Answered :
      (S : RawAd fl.F → Type 0) (ctx : Context) (resp : VideoResp)
      → Listed S ctx resp
      → Answered S ctx
          (if length resp.ad_list == 0 then new_rtv_resp "no video ad suggestted" 6 else resp)
  unfolding new_rtv_resp
  Listed-Answered S ctx resp h = elim (Bool-cases (length resp.ad_list == 0)) [
    | inl e ↦ rw e (inl ((λ q. omega (arith, q)), refl, refl))
    | inr e ↦ rw e (inr (ground (arith, e), h))
  ]

  pub answer_chosen-Returns :
      (S : RawAd fl.F → Type 0) (ctx : Context) (outs : List (RawAd fl.F))
      → All (λ out. (raw : RawAd fl.F) × (S raw × Stored raw) × Copy ctx raw out) outs
      → Returns (Answered S ctx) (answer_chosen fl env ctx outs)
  unfolding answer_chosen new_rtv_resp
  answer_chosen-Returns S ctx [] a = inl ((λ q. omega (arith, q)), refl, refl)
  answer_chosen-Returns S ctx (out ∷ outs) a =
      Returns->>= (Listed S ctx) (Answered S ctx)
        (add_ads fl env ctx (out ∷ outs) (new_rtv_resp "ok" 0)) _
        (add_ads-Returns S ctx (out ∷ outs) (new_rtv_resp "ok" 0) a (refl, refl, tt))
        (λ resp h. Listed-Answered S ctx resp h)
