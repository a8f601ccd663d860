-- ===== src/Retrieval/Filter/Laws.antt =====
-- What the filter of retrievalHandler admits, and what it leaves of the context.
use real_api_server.Prelude.{
  ◌≡◌, ◌≢◌, ◌⊎◌, ◌↔◌, inl, inr, refl, String, Bool, true, false, not, ◌&&◌, arith, eq_iff, ◌==◌,
  string_eq, if◌then◌else◌, Bool-cases,
}
use real_api_server.Prelude.Int.{pos}
use real_api_server.Prelude.Float.{Float64}
use real_api_server.HttpContext.{Context, is_wugan, in_freq_cap, pre_click_in_freq_cap}
use real_api_server.RawAd.{RawAd, is_hit_carrier}
use real_api_server.RawAd.Media.{has_matched_creative}
use real_api_server.Pacing.{ExpiredMap, PacingController, over_cap}
use real_api_server.Ssp.{SlotInfo}
use real_api_server.Retrieval.{ad_search, match_key_words}
use real_api_server.Retrieval.Filter.{
  any_def_icon, all_icons, first_cat, Draws, wugan_filter, plain_filter, search_filter,
}
use real_api_server.Retrieval.Search.{Admits, ad_search-Admits}

-- The five gates of the filter in their order: `t` and the tests `b` and `c` refuse, `a` must hold,
-- and `u` chooses between the last two.
abbrev gates : Bool → Bool → Bool → Bool → Bool → Bool → Bool → Bool
gates t a b c u w p = not t && (a && (not b && (not c && (if u then w else p))))

gates_iff :
    (t a b c u w p : Bool) (A B C W P : Type 0)
    → ((a ≡ true) ↔ A)
    → ((b ≡ false) ↔ B)
    → ((c ≡ false) ↔ C)
    → ((w ≡ true) ↔ W)
    → ((p ≡ true) ↔ P)
    → (gates t a b c u w p ≡ true)
      ↔ ((t ≡ false) × A × B × C × (((u ≡ true) × W) ⊎ ((u ≡ false) × P)))
gates_iff t a b c u w p A B C W P (fa, ga) (fb, gb) (fc, gc) (fw, gw) (fp, gp) = (
  λ h. (
    ground (arith, h),
    fa (ground (arith, h)),
    fb (ground (arith, h)),
    fc (ground (arith, h)),
    elim (Bool-cases u) [
      | inl e ↦ inl (e, fw (ground (arith, e, h)))
      | inr e ↦ inr (e, fp (ground (arith, e, h)))
    ],
  ),
  λ (x, y, z, q, rest). elim rest [
    | inl (e, s) ↦ ground (arith, x, ga y, gb z, gc q, e, gw s)
    | inr (e, s) ↦ ground (arith, x, ga y, gb z, gc q, e, gp s)
  ],
)

module _ (fl : Float64) (em : ExpiredMap) (contains : String → String → Bool) where
  -- An offer for a request that is `wugan`.
  abbrev pub SuitsWugan : Draws fl.F → PacingController em → RawAd fl.F → Context → Type 0
  SuitsWugan draws pc raw ctx =
      (raw.payout_type ≢ "CPL")
      × (fl.at_most raw.pre_rate draws.pre_click ≡ false)
      × (pre_click_in_freq_cap ctx raw.pkg_name (pos 1) ≡ true)
      × (over_cap em raw.uniq_id ctx.country raw.pacing ctx.now pc ≡ false)

  -- An offer for any other request.
  abbrev pub SuitsPlain : Draws fl.F → RawAd fl.F → Context → Type 0
  SuitsPlain draws raw ctx =
      ((in_freq_cap ctx raw.pkg_name (pos 1)).0 ≡ true)
      × (has_matched_creative fl draws.own_lang draws.all_langs raw ctx ≡ true)
      × (match_key_words contains raw ctx ≡ true)
      × ((ctx.ad_cat ≢ "1") ⊎ (first_cat raw.app_category ≡ "game"))
      × ((ctx.ad_cat ≢ "2") ⊎ (first_cat raw.app_category ≡ "tool"))

  abbrev pub Suits :
      Draws fl.F → PacingController em → SlotInfo fl.F → RawAd fl.F → Context → Type 0
  Suits draws pc tpl raw ctx =
      (raw.is_t ≡ false)
      × Admits fl draws.traffic raw ctx tpl
      × ((ctx.integral_wall ≡ false) ⊎ (any_def_icon raw.platform (all_icons raw) ≡ false))
      × ((ctx.carrier ≡ "") ⊎ (is_hit_carrier raw ctx.carrier ≡ true))
      × (((is_wugan ctx ≡ true) × SuitsWugan draws pc raw ctx)
          ⊎ ((is_wugan ctx ≡ false) × SuitsPlain draws raw ctx))

  wugan_iff :
      (draws : Draws fl.F) (pc : PacingController em) (raw : RawAd fl.F) (ctx : Context)
      → (wugan_filter fl em contains draws pc raw ctx ≡ true) ↔ SuitsWugan draws pc raw ctx
  unfolding wugan_filter
  wugan_iff draws pc raw ctx = (
    λ h. (
      (λ q. ground (arith, h, q, eq_iff raw.payout_type "CPL")),
      ground (arith, h),
      ground (arith, h),
      ground (arith, h),
    ),
    λ (p, q, r, s). elim (Bool-cases (raw.payout_type == "CPL")) [
      | inl e ↦ absurd (p ((eq_iff raw.payout_type "CPL").0 e))
      | inr e ↦ ground (arith, e, q, r, s)
    ],
  )

  cat_iff :
      (want cat n c : String) → ((want == n) && not (cat == c) ≡ false) ↔ ((want ≢ n) ⊎ (cat ≡ c))
  cat_iff want cat n c = elim (Bool-cases (want == n)) [
    | inr e ↦ (λ h. inl (λ q. ground (arith, e, q, eq_iff want n)), λ h. ground (arith, e))
    | inl e ↦ elim (Bool-cases (cat == c)) [
      | inl f ↦ (λ h. inr ((eq_iff cat c).0 f), λ h. ground (arith, e, f))
      | inr f ↦ (
        λ h. ground (arith, e, f, h),
        λ h. elim h [
          | inl d ↦ absurd (d ((eq_iff want n).0 e))
          | inr q ↦ ground (arith, f, q, eq_iff cat c)
        ],
      )
    ]
  ]

  plain_iff :
      (draws : Draws fl.F) (raw : RawAd fl.F) (ctx : Context)
      → ((plain_filter fl em contains draws raw ctx).1 ≡ true) ↔ SuitsPlain draws raw ctx
  unfolding plain_filter
  plain_iff draws raw ctx =
      let (f, f') = cat_iff ctx.ad_cat (first_cat raw.app_category) "1" "game" in
      let (g, g') = cat_iff ctx.ad_cat (first_cat raw.app_category) "2" "tool" in
      (
        λ h. (
          ground (arith, h),
          ground (arith, h),
          ground (arith, h),
          f (ground (arith, h)),
          g (ground (arith, h)),
        ),
        λ (p, q, r, s, t). ground (arith, p, q, r, f' s, g' t),
      )

  carrier_iff :
      (raw : RawAd fl.F) (carrier : String)
      → (not (carrier == "") && not (is_hit_carrier raw carrier) ≡ false)
        ↔ ((carrier ≡ "") ⊎ (is_hit_carrier raw carrier ≡ true))
  carrier_iff raw carrier = elim (Bool-cases (carrier == "")) [
    | inl e ↦ (λ h. inl ((eq_iff carrier "").0 e), λ h. ground (arith, e))
    | inr e ↦ elim (Bool-cases (is_hit_carrier raw carrier)) [
      | inl f ↦ (λ h. inr f, λ h. ground (arith, e, f))
      | inr f ↦ (
        λ h. ground (arith, e, f, h),
        λ h. elim h [
          | inl q ↦ ground (arith, e, q, eq_iff carrier "")
          | inr q ↦ ground (arith, f, q)
        ],
      )
    ]
  ]

  wall_iff : (a b : Bool) → (a && b ≡ false) ↔ ((a ≡ false) ⊎ (b ≡ false))
  wall_iff true b = (λ h. inr h, λ h. elim h [ inl q ↦ ground (arith, q) | inr q ↦ q ])
  wall_iff false b = (λ h. inl refl, λ h. refl)

  plain_filter_keeps :
      (draws : Draws fl.F) (raw : RawAd fl.F) (ctx : Context)
      → (plain_filter fl em contains draws raw ctx).1 ≡ true
      → (plain_filter fl em contains draws raw ctx).0 ≡ ctx
  unfolding plain_filter
  plain_filter_keeps draws raw ctx h = ground (arith, h)

  search_filter_keeps :
      (draws : Draws fl.F) (pc : PacingController em) (tpl : SlotInfo fl.F) (raw : RawAd fl.F)
      (ctx : Context)
      → (search_filter fl em contains draws pc tpl raw ctx).1 ≡ true
      → (search_filter fl em contains draws pc tpl raw ctx).0 ≡ ctx
  unfolding search_filter
  search_filter_keeps draws pc tpl raw ctx h = ground (arith, h, plain_filter_keeps draws raw ctx)

  search_filter_verdict :
      (draws : Draws fl.F) (pc : PacingController em) (tpl : SlotInfo fl.F) (raw : RawAd fl.F)
      (ctx : Context)
      → (search_filter fl em contains draws pc tpl raw ctx).1
        ≡ gates raw.is_t
            (ad_search fl draws.traffic raw ctx tpl).1
            (ctx.integral_wall && any_def_icon raw.platform (all_icons raw))
            (not (ctx.carrier == "") && not (is_hit_carrier raw ctx.carrier))
            (is_wugan ctx)
            (wugan_filter fl em contains draws pc raw ctx)
            (plain_filter fl em contains draws raw ctx).1
  unfolding search_filter
  search_filter_verdict draws pc tpl raw ctx = ground arith

  -- The filter admits an offer exactly if the offer is not white, adSearch admits it, it has no
  -- default icon in an app wall, it fits the carrier if one is named, and: for a `wugan` request it is
  -- no CPL offer, the draw is below its pre-click rate, its package is within the pre-click cap and its
  -- clicks are not over the cap; for any other request its package is within the frequency cap, it
  -- has a matched creative and the key words, and is of the category that is asked for. If it
  -- admits the offer, the context stays as it is.
  pub search_filter-Suits :
      (draws : Draws fl.F) (pc : PacingController em) (tpl : SlotInfo fl.F) (raw : RawAd fl.F)
      (ctx : Context)
      → (((search_filter fl em contains draws pc tpl raw ctx).1 ≡ true)
          ↔ Suits draws pc tpl raw ctx)
        × (((search_filter fl em contains draws pc tpl raw ctx).1 ≡ false)
            ⊎ ((search_filter fl em contains draws pc tpl raw ctx).0 ≡ ctx))
  search_filter-Suits draws pc tpl raw ctx = (
    rw (search_filter_verdict draws pc tpl raw ctx) (
        gates_iff _ _ _ _ _ _ _ _ _ _ _ _ (ad_search-Admits fl draws.traffic raw ctx tpl)
          (wall_iff ctx.integral_wall (any_def_icon raw.platform (all_icons raw)))
          (carrier_iff raw ctx.carrier) (wugan_iff draws pc raw ctx) (plain_iff draws raw ctx)),
    elim (Bool-cases (search_filter fl em contains draws pc tpl raw ctx).1) [
      | inr refused ↦ inl refused
      | inl passed ↦ inr (search_filter_keeps draws pc tpl raw ctx passed)
    ],
  )
