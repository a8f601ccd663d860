-- ===== src/Retrieval/VideoV4/Found.antt =====
-- What the search of videoAdHandler finds, and what it leaves of the context.
use real_api_server.Prelude.{
  ℕ, zero, suc, ◌≡◌, inl, inr, refl, sym, ◌∙◌, String, Bool, true, false, not, ◌&&◌, List, [], ◌∷◌,
  arith, ◌==◌, string_eq, if◌then◌else◌, ap, All, All-imp, Within, length, ◌-◌, is_some,
}
use real_api_server.Prelude.Dict.{Dict}
use real_api_server.Prelude.Float.{Float64}
use real_api_server.HttpContext.{Context, debug, is_ios_installed_pkg, is_wugan}
use real_api_server.RawAd.{RawAd, is_hit_channel_type}
use real_api_server.RawAd.Media.{get_video_by_cids}
use real_api_server.Ssp.{SlotInfo}
use real_api_server.Ssp.Slots.{app_category_in_black_list}
use real_api_server.GoHeap.{swap}
use real_api_server.Rank.Video.Draws.{All-swap}
use real_api_server.Util.Shuffle.{shuffle, shuffle_down}
use real_api_server.Retrieval.{ad_search, bloom_rejects}
use real_api_server.Retrieval.VideoV4.{video_filter, video_search}

module _ {A : Type 0} (P : A → Type 0) (draw : ℕ → ℕ) where
  shuffle_down-All : (i : ℕ) (arr : List A) → All P arr → All P (shuffle_down draw i arr)
  unfolding shuffle_down
  shuffle_down-All zero arr h = h
  shuffle_down-All (suc i) arr h =
      shuffle_down-All i (swap arr (suc i) (draw (suc i))) (All-swap P arr (suc i) (draw (suc i)) h)

  pub shuffle-All : (arr : List A) → All P arr → All P (shuffle draw arr)
  unfolding shuffle
  shuffle-All arr h = shuffle_down-All (length arr - 1) arr h

-- A context with other notes for debugging.
abbrev pub Noted : Context → Context → Type 0
Noted ctx c = (d : Dict (List String)) × (c ≡ record ctx { demsg = d })

pub Noted-if :
    (ctx : Context) (b : Bool) (x y : Context × Bool)
    → Noted ctx x.0
    → Noted ctx y.0
    → Noted ctx (if b then x else y).0
Noted-if ctx true x y h k = h
Noted-if ctx false x y h k = k

Noted-record :
    (ctx : Context) (b : Bool) (v : Dict (List String))
    → Noted ctx (if b then record ctx { demsg = v } else ctx)
Noted-record ctx true v = (v, refl)
Noted-record ctx false v = (ctx.demsg, refl)

pub debug-Noted : (id msg : String) (ctx : Context) → Noted ctx (debug id msg ctx)
unfolding debug
debug-Noted id msg ctx = Noted-record ctx (ctx.is_demsg && not (msg == "")) _

pub kept :
    {A : Type 0} (b : Bool) (P : A → Type 0) (x : A) (l : List A)
    → All P l
    → (b ≡ true → P x)
    → All P (if b then x ∷ l else l)
kept true P x l h f = (f refl, h)
kept false P x l h f = h

module _ (fl : Float64) (contains : String → String → Bool) (coins : RawAd fl.F → fl.F)
    (tpl : SlotInfo fl.F) where
  -- The tests of the filter.
  pub passes : RawAd fl.F → Context → Bool
  passes raw ctx =
      (ad_search fl (coins raw) raw ctx tpl).1
      && (not (app_category_in_black_list contains tpl raw.app_category)
          && (not (ctx.ad_type == "7" && not (is_hit_channel_type raw "4"))
              && (not (is_ios_installed_pkg ctx raw.pkg_name)
                  && is_some (get_video_by_cids fl raw ctx.cid_map))))

  video_filter-passes :
      (raw : RawAd fl.F) (ctx : Context)
      → (video_filter fl contains coins tpl raw ctx).1 ≡ passes raw ctx
  unfolding video_filter passes
  video_filter-passes raw ctx = ground arith

  video_filter-Noted :
      (raw : RawAd fl.F) (ctx : Context) → Noted ctx (video_filter fl contains coins tpl raw ctx).0
  unfolding video_filter
  video_filter-Noted raw ctx =
      let refused : (msg : String) → Noted ctx (debug raw.uniq_id msg ctx) =
        λ msg. debug-Noted raw.uniq_id msg ctx in
      Noted-if ctx _ _ _ (refused (ad_search fl (coins raw) raw ctx tpl).0) (
        Noted-if ctx _ _ _ (refused "slot black cat") (
          Noted-if ctx _ _ _ (refused "channel type") (
            Noted-if ctx _ _ _ (refused "installed")
              (Noted-if ctx _ _ _ (refused "no matched video") (ctx.demsg, refl)))))

  passes-notes :
      (raw : RawAd fl.F) (ctx : Context) (d : Dict (List String))
      → passes raw (record ctx { demsg = d }) ≡ passes raw ctx
  unfolding passes ad_search bloom_rejects is_wugan is_ios_installed_pkg
  passes-notes raw ctx d = refl

  -- The search finds offers of the list that pass, and changes the context by notes only.
  pub video_search-All :
      (raws : List (RawAd fl.F)) (ctx : Context)
      → All
          (λ raw. Within raw raws × (passes raw ctx ≡ true))
          (video_search fl contains coins tpl raws ctx).1
        × Noted ctx (video_search fl contains coins tpl raws ctx).0
  unfolding video_search
  video_search-All [] ctx = (tt, (ctx.demsg, refl))
  video_search-All (raw ∷ raws) ctx =
      let (d, e) = video_filter-Noted raw ctx in
      let (h, (d', e')) = video_search-All raws (video_filter fl contains coins tpl raw ctx).0 in
      let same : (r : RawAd fl.F)
          → passes r (video_filter fl contains coins tpl raw ctx).0 ≡ passes r ctx =
        λ r. ap (passes r) e ∙ passes-notes r ctx d in
      let rest =
        All-imp _ (λ r. Within r (raw ∷ raws) × (passes r ctx ≡ true)) _
          (λ r q. (inr q.0, sym (same r) ∙ q.1)) h in
      (
        kept (video_filter fl contains coins tpl raw ctx).1 _ raw _ rest
            (λ v. (inl refl, sym (video_filter-passes raw ctx) ∙ v)),
        (d', e' ∙ ap (λ (c : Context). record c { demsg = d' }) e),
      )
