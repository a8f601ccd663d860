-- ===== src/Retrieval/NativeV4/Found.antt =====
-- What the search of videov4NativeHandler finds, and which ads are made of it.
use real_api_server.Prelude.{
  ◌≡◌, inl, inr, refl, sym, subst, ◌∙◌, ap, String, Bool, true, false, Option, none, some, List, [],
  ◌∷◌, arith, length, length-append, nat_eq, if◌then◌else◌, All, All-imp, All-append_one, Within,
}
use real_api_server.Prelude.Float.{Float64}
use real_api_server.HttpContext.{Context, debug}
use real_api_server.RawAd.{RawAd}
use real_api_server.RawAd.Image.{Img}
use real_api_server.RawAd.Click.{click_url, Clicks}
use real_api_server.Prelude.Run.{Run, ok, panic, Returns}
use real_api_server.Prelude.{is_some}
use real_api_server.RawAd.Videos.{Video}
use real_api_server.Ssp.{SlotInfo, is_active_video_slot}
use real_api_server.Ssp.Slots.{match_ssp_format}
use real_api_server.Retrieval.{ad_search, make_retrieval_conditions}
use real_api_server.Retrieval.VideoV4.{VideoAd, VideoResp, get_video_tpl_and_update_slot}
use real_api_server.Retrieval.VideoV4.Ads.{with_ad}
use real_api_server.Retrieval.VideoV4.Found.{Noted, Noted-if, debug-Noted, kept}
use real_api_server.Retrieval.NativeV4.{NativeEnv, make_native, native_filter, native_search}

pub slot_holds :
    {F V : Type 0} (P : V → Type 0) (o : Option (SlotInfo F × Context)) (x : V)
    (next : SlotInfo F → Context → V)
    → P x
    → ((tpl : SlotInfo F) (ctx : Context) → o ≡ some (tpl, ctx) → P (next tpl ctx))
    → P (elim o [ none ↦ x | some (tpl, ctx) ↦ next tpl ctx ])
slot_holds P none x next h f = h
slot_holds P (some (tpl, ctx)) x next h f = f tpl ctx refl

Noted-Noted : (ctx c c' : Context) → Noted ctx c → Noted c c' → Noted ctx c'
Noted-Noted ctx c c' (d, e) (d', e') = (d', e' ∙ ap (λ (x : Context). record x { demsg = d' }) e)

made_if :
    (has_vast : VideoAd → Bool) (b : Bool) (a adv : VideoAd)
    → has_vast a ≡ b
    → (if b then some a else none) ≡ some adv
    → (a ≡ adv) × (has_vast adv ≡ true)
made_if has_vast true a adv e h =
    let same : a ≡ adv = cc in (same, subst (λ x. has_vast x ≡ true) same e)
made_if has_vast false a adv e h = cc

-- An ad that is made, if there is one, is of this offer and slot, with a click url and a document.
abbrev pub Made :
    (VideoAd → Bool) → String → String → Option (Run (Unit {0})) → Option VideoAd → Type 0
Made has_vast id slot click o =
    (adv : VideoAd)
    → o ≡ some adv
    → (adv.id ≡ id) × (adv.slot ≡ slot) × (is_some click ≡ true) × (has_vast adv ≡ true)

pub make_native-Made :
    (has_vast : VideoAd → Bool) (id slot : String) (click : Option (Run (Unit {0})))
    (v : Option Video) (img icon : Option Img)
    → Clicks click
    → Returns (Made has_vast id slot click) (make_native has_vast id slot click v img icon)
unfolding make_native
make_native-Made has_vast id slot none v img icon c = λ adv h. cc
make_native-Made has_vast id slot (some panic) v img icon c = absurd c
make_native-Made has_vast id slot (some (ok u)) none img icon c = λ adv h. cc
make_native-Made has_vast id slot (some (ok u)) (some v) none icon c = λ adv h. cc
make_native-Made has_vast id slot (some (ok u)) (some v) (some img) none c = λ adv h. cc
make_native-Made has_vast id slot (some (ok u)) (some v) (some img) (some icon) c = λ adv h.
    let a : VideoAd = record { id = id; slot = slot; video = v; img = img; icon = icon } in
    let (same, vast) = made_if has_vast (has_vast a) a adv refl h in
    (sym (ap (λ (x : VideoAd). x.id) same), sym (ap (λ (x : VideoAd). x.slot) same), refl, vast)

-- An answer without an error, with as many offers as ads, all with `P`.
abbrev pub Filled : (VideoAd → Type 0) → VideoResp → Type 0
Filled P resp = (resp.err_no ≡ 0) × (length resp.offers ≡ length resp.ad_list) × All P resp.ad_list

pub with_ad-Filled :
    {F : Type 0} (P : VideoAd → Type 0) (raw : RawAd F) (o : Option VideoAd) (resp : VideoResp)
    → ((adv : VideoAd) → o ≡ some adv → P adv)
    → Filled P resp
    → Filled P (with_ad raw o resp)
unfolding with_ad
with_ad-Filled P raw none resp f h = h
with_ad-Filled P raw (some adv) resp f (z, n, h) = (
  z,
  omega (
    arith,
    n,
    length-append resp.offers (raw.uniq_id ∷ []),
    length-append resp.ad_list (adv ∷ []),
  ),
  All-append_one P resp.ad_list adv h (f adv refl),
)

module _ (fl : Float64) (env : NativeEnv fl) where
  -- The offers that the index has for the conditions of a request and that the filter admits, the
  -- notes for debugging aside.
  abbrev pub Admitted : SlotInfo fl.F → Context → RawAd fl.F → Type 0
  Admitted tpl ctx raw =
      Within raw (env.index (make_retrieval_conditions env.major ctx))
      × ((c : Context) × Noted ctx c × ((native_filter fl env tpl raw c).1 ≡ true))

  -- The slot of the request: an active one for native videos that the draw shows, and the request
  -- goes on with its id.
  abbrev pub SlotOf : Context → SlotInfo fl.F → Context → Type 0
  SlotOf asked tpl ctx =
      (get_video_tpl_and_update_slot env.store asked
        ≡ some (tpl, record asked { slot_id = tpl.id_str }))
      × (is_active_video_slot tpl ≡ true)
      × (match_ssp_format tpl 8 ≡ true)
      × (fl.less tpl.impression_rate env.rate_coin ≡ false)
      × (ctx.slot_id ≡ tpl.id_str)
      × (ctx.platform ≡ asked.platform)

  -- An ad for a slot, of an offer with `S` whose channel has click urls, with a document.
  abbrev pub NativeAd : (RawAd fl.F → Type 0) → String → VideoAd → Type 0
  NativeAd S slot adv =
      (raw : RawAd fl.F) × S raw
      × (adv.id ≡ raw.id)
      × (adv.slot ≡ slot)
      × (is_some (click_url env.has_prefix env.split raw) ≡ true)
      × (env.has_vast adv ≡ true)

  native_filter-Noted :
      (tpl : SlotInfo fl.F) (raw : RawAd fl.F) (ctx : Context)
      → Noted ctx (native_filter fl env tpl raw ctx).0
  unfolding native_filter
  native_filter-Noted tpl raw ctx =
      let refused : (msg : String) → Noted ctx (debug raw.uniq_id msg ctx) =
        λ msg. debug-Noted raw.uniq_id msg ctx in
      Noted-if ctx _ _ _ (refused (ad_search fl (env.coins raw) raw ctx tpl).0) (
        Noted-if ctx _ _ _ (refused "slot black cat") (
          Noted-if ctx _ _ _ (refused "imp frequency") (
            Noted-if ctx _ _ _ (refused "channel type") (
              Noted-if ctx _ _ _ (refused "installed")
                (Noted-if ctx _ _ _ (refused "no matched native video") (ctx.demsg, refl))))))

  -- The search finds offers of the list that the filter admits, and changes notes only.
  pub native_search-All :
      (tpl : SlotInfo fl.F) (raws : List (RawAd fl.F)) (ctx : Context)
      → All
          (λ raw.
            Within raw raws
            × ((c : Context) × Noted ctx c × ((native_filter fl env tpl raw c).1 ≡ true)))
          (native_search fl env tpl raws ctx).1
        × Noted ctx (native_search fl env tpl raws ctx).0
  unfolding native_search
  native_search-All tpl [] ctx = (tt, (ctx.demsg, refl))
  native_search-All tpl (raw ∷ raws) ctx =
      let next = (native_filter fl env tpl raw ctx).0 in
      let noted = native_filter-Noted tpl raw ctx in
      let (h, later) = native_search-All tpl raws next in
      let rest =
        All-imp _
          (λ r.
            Within r (raw ∷ raws)
            × ((c : Context) × Noted ctx c × ((native_filter fl env tpl r c).1 ≡ true)))
          _ (λ r (w, (c, n, p)). (inr w, (c, Noted-Noted ctx next c noted n, p))) h in
      (
        kept (native_filter fl env tpl raw ctx).1 _ raw _ rest
            (λ v. (inl refl, (ctx, (ctx.demsg, refl), v))),
        Noted-Noted ctx next _ noted later,
      )
