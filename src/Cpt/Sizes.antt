-- ===== src/Cpt/Sizes.antt =====
-- What GetCptDocs of cpt/cpt.go does to the picture size of the context.
use real_api_server.Prelude.{
  ℕ, ◌≤◌, ◌<◌, ◌≡◌, ◌⊎◌, inl, inr, refl, Bool, true, false, none, some, List, [], ◌∷◌, length, ◌==◌,
  nat_eq, string_eq, ltb, Bool-cases, Option-cases, All, arith, ap, ◌||◌,
}
use real_api_server.Prelude.Dict.{Dict, lookup}
use real_api_server.Prelude.Float.{Float64}
use real_api_server.HttpContext.{Context, is_wugan}
use real_api_server.RawAd.{RawAd}
use real_api_server.RawAd.Media.{has_matched_creative}
use real_api_server.Retrieval.{Cond}
use real_api_server.Cpt.{Media, slot_of, Handler, cpt_filter, media_docs, get_cpt_docs, with_pmt}

-- The context with the picture size that the media has for the slot.
abbrev pub sized_for : Media → Context → Context
sized_for media ctx = record ctx {
  img_w = (slot_of media ctx.slot_id).img_w;
  img_h = (slot_of media ctx.slot_id).img_h;
}

none_found : (l : List ℕ) → (length l == 0) ≡ true → l ≡ []
none_found [] h = refl
none_found (x ∷ l) h = ground (arith, h)

module _ (fl : Float64) (own_lang all_langs : ℕ → ℕ → Bool) where
  -- A document that may be shown: the offer is of the media and has a creative of the size in `ctx`.
  abbrev pub Shown : Media → Context → RawAd fl.F → Type 0
  Shown media ctx raw =
      (lookup raw.uniq_id media.offers ≡ some true)
      × (has_matched_creative fl own_lang all_langs raw ctx ≡ true)

  cpt_filter-Shown :
      (media : Media) (ctx : Context) (raw : RawAd fl.F)
      → cpt_filter fl own_lang all_langs media ctx raw ≡ true
      → Shown media ctx raw
  unfolding cpt_filter
  cpt_filter-Shown media ctx raw h = (ground (arith, h), ground (arith, h))

  -- The index gives only documents whose attributes the filter admits.
  abbrev pub Sound : (ℕ → RawAd fl.F) → Handler fl → Type 0
  Sound attr search =
      (conds : List Cond) (f : RawAd fl.F → Bool) → All (λ d. f (attr d) ≡ true) (search conds f)

  shown :
      (attr : ℕ → RawAd fl.F) (media : Media) (ctx : Context) (docs : List ℕ)
      → All (λ d. cpt_filter fl own_lang all_langs media ctx (attr d) ≡ true) docs
      → All (λ d. Shown media ctx (attr d)) docs
  shown attr media ctx [] h = tt
  shown attr media ctx (d ∷ docs) (p, h) =
      (cpt_filter-Shown media ctx (attr d) p, shown attr media ctx docs h)

  -- There is nothing to show: it is not the media's time, or the index finds nothing.
  abbrev pub Idle : Handler fl → List Cond → Media → Context → Type 0
  Idle search conds media ctx =
      (ctx.now < media.start_time)
      ⊎ ((media.end_time < ctx.now)
          ⊎ (search conds (cpt_filter fl own_lang all_langs media (sized_for media ctx)) ≡ []))

  -- Why a request gets no documents.
  abbrev pub Refused : Handler fl → Dict Media → List Cond → Context → Type 0
  Refused search g_media_map conds ctx =
      (is_wugan ctx ≡ true)
      ⊎ ((lookup ctx.slot_id g_media_map ≡ none)
          ⊎ ((media : Media) × (lookup ctx.slot_id g_media_map ≡ some media)
              × Idle search (with_pmt conds) media ctx))

  outside :
      (media : Media) (ctx : Context)
      → (ltb ctx.now media.start_time || ltb media.end_time ctx.now) ≡ true
      → (ctx.now < media.start_time) ⊎ (media.end_time < ctx.now)
  outside media ctx h = elim (Bool-cases (ltb ctx.now media.start_time)) [
    | inl e ↦ inl (ground (arith, e))
    | inr e ↦ inr (ground (arith, e, h))
  ]

  media_docs-Shown :
      (attr : ℕ → RawAd fl.F) (search : Handler fl) (conds : List Cond) (media : Media)
      (ctx : Context)
      → Sound attr search
      → ((media_docs fl own_lang all_langs (some search) conds media ctx ≡ ([], ctx))
          × Idle search conds media ctx)
        ⊎ ((media.start_time ≤ ctx.now)
            × (ctx.now ≤ media.end_time)
            × (0 < length (media_docs fl own_lang all_langs (some search) conds media ctx).0)
            × ((media_docs fl own_lang all_langs (some search) conds media ctx).1
                ≡ sized_for media ctx)
            × All
                (λ d. Shown media (sized_for media ctx) (attr d))
                (media_docs fl own_lang all_langs (some search) conds media ctx).0)
  unfolding media_docs
  media_docs-Shown attr search conds media ctx sound =
      let sized = sized_for media ctx in
      let docs = search conds (cpt_filter fl own_lang all_langs media sized) in
      elim (Bool-cases (ltb ctx.now media.start_time || ltb media.end_time ctx.now)) [
        | inl closed ↦ rw closed (
            inl (
              refl,
              elim (outside media ctx closed) [ inl early ↦ inl early | inr late ↦ inr (inl late) ],
            ))
        | inr open_ ↦ elim (Bool-cases (length docs == 0)) [
          | inl e ↦
              rw (open_, e)
                (inl (ap (λ l. (l, ctx)) (none_found docs e), inr (inr (none_found docs e))))
          | inr e ↦
              rw (open_, e)
                (inr (
                  ground (arith, open_),
                  ground (arith, open_),
                  ground (arith, e),
                  refl,
                  shown attr media sized docs
                      (sound conds (cpt_filter fl own_lang all_langs media sized)),
                ))
        ]
      ]

  -- A request gets documents from GetCptDocs only if it is not `wugan`, its slot is one of a media and
  -- the time is within the media's, if the index gives only what the filter admits. There is
  -- at least one document then, and each is an offer of that media that has a creative of the picture
  -- size that the media sets for the slot, which the context then has. In all other cases there are no documents and the context,
  -- its picture size included, is as it was: the request is `wugan`, the slot has no media, it is not
  -- the media's time, or the index finds nothing.
  pub get_cpt_docs-Shown :
      (attr : ℕ → RawAd fl.F) (search : Handler fl) (g_media_map : Dict Media) (conds : List Cond)
      (ctx : Context)
      → Sound attr search
      → ((get_cpt_docs fl own_lang all_langs (some search) g_media_map conds ctx ≡ ([], ctx))
          × Refused search g_media_map conds ctx)
        ⊎ ((is_wugan ctx ≡ false)
            × (media : Media) × (lookup ctx.slot_id g_media_map ≡ some media)
            × (media.start_time ≤ ctx.now)
            × (ctx.now ≤ media.end_time)
            × (0
                < length (get_cpt_docs fl own_lang all_langs (some search) g_media_map conds ctx).0)
            × ((get_cpt_docs fl own_lang all_langs (some search) g_media_map conds ctx).1
                ≡ sized_for media ctx)
            × All
                (λ d. Shown media (sized_for media ctx) (attr d))
                (get_cpt_docs fl own_lang all_langs (some search) g_media_map conds ctx).0)
  unfolding get_cpt_docs
  get_cpt_docs-Shown attr search g_media_map conds ctx sound = elim (Bool-cases (is_wugan ctx)) [
    | inl w ↦ rw w (inl (refl, inl refl))
    | inr w ↦ elim (Option-cases (lookup ctx.slot_id g_media_map)) [
      | inl missing ↦ rw (w, missing) (inl (refl, inr (inl refl)))
      | inr (media, found) ↦ elim (media_docs-Shown attr search (with_pmt conds) media ctx sound) [
        | inl (e, idle) ↦ rw (w, found) (inl (e, inr (inr (media, refl, idle))))
        | inr (a, b, n, c, d) ↦ rw (w, found) (inr (refl, media, refl, a, b, n, c, d))
      ]
    ]
  ]
