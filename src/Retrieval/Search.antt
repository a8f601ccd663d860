-- ===== src/Retrieval/Search.antt =====
-- adSearch and matchKeyWords of retrieval/service.go.
use real_api_server.Prelude.{
  ℕ, ◌≡◌, ◌≢◌, ◌⊎◌, ◌↔◌, inl, inr, refl, subst, String, Bool, true, false, not, ◌&&◌, ◌||◌, Option,
  none, some, List, [], ◌∷◌, arith, eq_iff, ◌==◌, nat_eq, string_eq, Option-cases, Bool-cases,
  Within,
}
use real_api_server.Prelude.Dict.{Dict, lookup}
use real_api_server.Prelude.Float.{Float64}
use real_api_server.Bloom.{BloomFilter, test_index}
use real_api_server.HttpContext.{Context, is_wugan}
use real_api_server.RawAd.{RawAd, is_hit_slot, hits, has_key}
use real_api_server.Ssp.{SlotInfo, in_white_list}
use real_api_server.Retrieval.{
  listed, unlisted, bloom_rejects, ad_search, any_key_word, match_key_words,
}

-- `k` is marked true in the map.
abbrev pub Marked : Option (Dict Bool) → String → Type 0
Marked m k = (d : Dict Bool) × (m ≡ some d) × (lookup k d ≡ some true)

-- There is no map, or it marks `k`.
abbrev pub Permits : Option (Dict Bool) → String → Type 0
Permits m k = (m ≡ none) ⊎ Marked m k

listed_iff : (m : Option (Dict Bool)) (k : String) → (listed m k ≡ true) ↔ Marked m k
unfolding listed
listed_iff none k = (λ h. ground arith, λ h. ground arith)
listed_iff (some d) k = elim (Option-cases (lookup k d)) [
  | inl e ↦ (λ h. ground (arith, e, h), λ (c, hc, h). ground (arith, e, hc, h))
  | inr (b, e) ↦ (λ h. (d, refl, ground (arith, e, h)), λ (c, hc, h). ground (arith, e, hc, h))
]

unlisted_iff : (m : Option (Dict Bool)) (k : String) → (unlisted m k ≡ false) ↔ Permits m k
unfolding unlisted
unlisted_iff none k = (λ h. inl refl, λ h. refl)
unlisted_iff (some d) k = elim (Option-cases (lookup k d)) [
  | inl e ↦ (λ h. ground (arith, e, h), λ h. ground (arith, e, h))
  | inr (b, e) ↦ (λ h. inr (d, refl, ground (arith, e, h)), λ h. ground (arith, e, h))
]

in_white_list_iff :
    (filter : List String) (cat : String) → (in_white_list filter cat ≡ true) ↔ Within cat filter
unfolding in_white_list
in_white_list_iff [] cat = (λ h. ground arith, λ h. absurd h)
in_white_list_iff (c ∷ filter) cat =
    let (f, g) = in_white_list_iff filter cat in
    elim (Bool-cases (c == cat)) [
      | inl e ↦ (λ h. inl (ground (arith, e, eq_iff c cat)), λ h. ground (arith, e))
      | inr e ↦ (
        λ h. inr (f (ground (arith, e, h))),
        λ h. elim h [ inl q ↦ ground (arith, e, q, eq_iff c cat) | inr w ↦ ground (arith, e, g w) ],
      )
    ]

has_key_iff : (k : String) (m : List String) → (has_key k m ≡ true) ↔ Within k m
unfolding has_key
has_key_iff k [] = (λ h. ground arith, λ h. absurd h)
has_key_iff k (c ∷ m) =
    let (f, g) = has_key_iff k m in
    elim (Bool-cases (c == k)) [
      | inl e ↦ (λ h. inl (ground (arith, e, eq_iff c k)), λ h. ground (arith, e))
      | inr e ↦ (
        λ h. inr (f (ground (arith, e, h))),
        λ h. elim h [ inl q ↦ ground (arith, e, q, eq_iff c k) | inr w ↦ ground (arith, e, g w) ],
      )
    ]

false_of : (b : Bool) → ¬ (b ≡ true) → b ≡ false
false_of b h = elim (Bool-cases b) [ inl e ↦ absurd (h e) | inr e ↦ e ]

not_true : {b : Bool} → b ≡ false → ¬ (b ≡ true)
not_true e h = ground (arith, e, h)

-- A restricting set, empty or with the key.
abbrev pub Restricts : List String → String → Type 0
Restricts m k = (m ≡ []) ⊎ Within k m

hits_iff : (m : List String) (k : String) → (hits m k ≡ true) ↔ Restricts m k
unfolding hits
hits_iff [] k = (λ h. inl refl, λ h. refl)
hits_iff (j ∷ m) k =
    let (f, g) = has_key_iff k (j ∷ m) in
    (λ h. inr (f h), λ h. elim h [ inl e ↦ ground (arith, e) | inr w ↦ g w ])

-- A filter of the debug requests: it is not set, or it is what is asked for.
abbrev pub Asked : String → String → Type 0
Asked wanted have = (wanted ≡ "") ⊎ (wanted ≡ have)

wanted_iff : (a b : String) → (not (a == "") && not (a == b) ≡ false) ↔ Asked a b
wanted_iff a b = elim (Bool-cases (a == "")) [
  | inl e ↦ (λ h. inl (ground (arith, e, eq_iff a "")), λ h. ground (arith, e))
  | inr e ↦ elim (Bool-cases (a == b)) [
    | inl f ↦ (λ h. inr (ground (arith, f, eq_iff a b)), λ h. ground (arith, e, f))
    | inr f ↦ (
      λ h. ground (arith, e, f, h),
      λ h. elim h [
        | inl q ↦ ground (arith, e, q, eq_iff a "")
        | inr q ↦ ground (arith, f, q, eq_iff a b)
      ],
    )
  ]
]

-- The Bloom filter of the request does not hold the offer's indexes, if it is asked at all.
abbrev pub Fresh : Context → List ℕ → Type 0
Fresh ctx index =
    (ctx.platform ≢ "Android")
    ⊎ ((ctx.ct_bf ≡ none)
        ⊎ ((bf : BloomFilter) × (ctx.ct_bf ≡ some bf) × (test_index bf index ≡ false)))

bloom_rejects_iff :
    (ctx : Context) (index : List ℕ) → (bloom_rejects ctx index ≡ false) ↔ Fresh ctx index
unfolding bloom_rejects
bloom_rejects_iff ctx index = elim (Bool-cases (ctx.platform == "Android")) [
  | inr e ↦
      (λ h. inl (λ q. ground (arith, e, q, eq_iff ctx.platform "Android")), λ h. ground (arith, e))
  | inl e ↦ elim (Option-cases ctx.ct_bf) [
    | inl f ↦ (λ h. inr (inl f), λ h. ground (arith, e, f))
    | inr (bf, f) ↦ (
      λ h. inr (inr (bf, f, ground (arith, e, f, h))),
      λ h. elim h [
        | inl q ↦ absurd (q (ground (arith, e, eq_iff ctx.platform "Android")))
        | inr (inl q) ↦ ground (arith, f, q)
        | inr (inr (c, q, r)) ↦ ground (arith, e, f, q, r)
      ],
    )
  ]
]

module _ (fl : Float64) where
  -- What a slot and a request admit, said without the order of the tests.
  abbrev pub Admits : fl.F → RawAd fl.F → Context → SlotInfo fl.F → Type 0
  Admits coin raw ctx tpl =
      ((ctx.is_debug ≡ false) ⊎ (Asked ctx.channel raw.channel × Asked ctx.offerid raw.id))
      × ¬ Marked tpl.ad_network_black_map raw.channel
      × Within raw.product_category tpl.white_list_filter
      × Restricts raw.offer_target_slot ctx.slot_id
      × ¬ Marked tpl.offer_black_map raw.uniq_id
      × ((is_wugan ctx ≡ true)
          ⊎ (Permits tpl.ad_network_white_map raw.channel
              × ¬ Marked tpl.pkg_black_map raw.pkg_name
              × (fl.less raw.traffic_rate coin ≡ false)))
      × Fresh ctx raw.ct_bloom_index

  -- adSearch admits an offer exactly if: a debug request asks for its channel and its id, or for
  -- none; its channel and its id are not on the slot's black lists; its product category is on the
  -- slot's white list; its own list of slots is empty or has the slot; for a request that is not
  -- `wugan`, also its channel is on the slot's white list (if there is one), its package is not on the
  -- black list and the draw is not above its traffic rate; and the Bloom filter of an Android
  -- request does not hold it.
  pub ad_search-Admits :
      (coin : fl.F) (raw : RawAd fl.F) (ctx : Context) (tpl : SlotInfo fl.F)
      → ((ad_search fl coin raw ctx tpl).1 ≡ true) ↔ Admits coin raw ctx tpl
  unfolding ad_search is_hit_slot
  ad_search-Admits coin raw ctx tpl =
      let (a, a') = wanted_iff ctx.channel raw.channel in
      let (b, b') = wanted_iff ctx.offerid raw.id in
      let (c, c') = listed_iff tpl.ad_network_black_map raw.channel in
      let (d, d') = in_white_list_iff tpl.white_list_filter raw.product_category in
      let (e, e') = hits_iff raw.offer_target_slot ctx.slot_id in
      let (f, f') = listed_iff tpl.offer_black_map raw.uniq_id in
      let (g, g') = unlisted_iff tpl.ad_network_white_map raw.channel in
      let (k, k') = listed_iff tpl.pkg_black_map raw.pkg_name in
      let (l, l') = bloom_rejects_iff ctx raw.ct_bloom_index in
      (
        λ h. (
          elim (Bool-cases ctx.is_debug) [
            | inr n ↦ inl n
            | inl n ↦ inr (a (ground (arith, h, n)), b (ground (arith, h, n)))
          ],
          λ m. not_true (ground (arith, h)) (c' m),
          d (ground (arith, h)),
          e (ground (arith, h)),
          λ m. not_true (ground (arith, h)) (f' m),
          elim (Bool-cases (is_wugan ctx)) [
            | inl n ↦ inl n
            | inr n ↦ inr (
              g (ground (arith, h, n)),
              λ m. not_true (ground (arith, h, n)) (k' m),
              ground (arith, h, n),
            )
          ],
          l (ground (arith, h)),
        ),
        λ (debug, black, product, slot, offer, rest, fresh).
            let c0 = false_of _ (λ h. black (c h)) in
            let f0 = false_of _ (λ h. offer (f h)) in
            let d1 = d' product in
            let e1 = e' slot in
            let l0 = l' fresh in
            elim debug [
              | inl n ↦ elim rest [
                | inl w ↦ ground (arith, n, w, c0, d1, e1, f0, l0)
                | inr (p, q, r) ↦
                    ground (arith, n, g' p, false_of _ (λ h. q (k h)), r, c0, d1, e1, f0, l0)
              ]
              | inr (x, y) ↦ elim rest [
                | inl w ↦ ground (arith, a' x, b' y, w, c0, d1, e1, f0, l0)
                | inr (p, q, r) ↦
                    ground
                      (arith, a' x, b' y, g' p, false_of _ (λ h. q (k h)), r, c0, d1, e1, f0, l0)
              ]
            ],
      )

module _ {F : Type 0} (contains : String → String → Bool) where
  -- A key word stands in the title, unless only descriptions are searched, or in the description,
  -- unless only titles are.
  abbrev pub Found : RawAd F → String → String → Type 0
  Found raw match_in kw =
      ((match_in ≢ "desc") × (contains raw.title_lc kw ≡ true))
      ⊎ ((match_in ≢ "title") × (contains raw.desc_lc kw ≡ true))

  abbrev here : RawAd F → String → String → Bool
  here raw m kw =
      (not (m == "desc") && contains raw.title_lc kw)
      || (not (m == "title") && contains raw.desc_lc kw)

  here_lem : (raw : RawAd F) (m kw : String) → (here raw m kw ≡ true) ↔ Found raw m kw
  here_lem raw m kw = elim (Bool-cases (not (m == "desc") && contains raw.title_lc kw)) [
    | inl e ↦ (
      λ h. inl (λ q. ground (arith, e, q, eq_iff m "desc"), ground (arith, e)),
      λ h. ground (arith, e),
    )
    | inr e ↦ (
      λ h. inr (λ q. ground (arith, e, h, q, eq_iff m "title"), ground (arith, e, h)),
      λ h. elim h [
        | inl (n, c) ↦ ground (arith, e, n, c, eq_iff m "desc")
        | inr (n, c) ↦ ground (arith, n, c, eq_iff m "title")
      ],
    )
  ]

  any_key_word-Found :
      (raw : RawAd F) (match_in : String) (kws : List String)
      → (any_key_word contains raw match_in kws ≡ true)
        ↔ ((kw : String) × Within kw kws × Found raw match_in kw)
  unfolding any_key_word
  any_key_word-Found raw match_in [] = (λ h. ground arith, λ (k, w, f). absurd w)
  any_key_word-Found raw match_in (kw ∷ kws) =
      let (f, g) = any_key_word-Found raw match_in kws in
      let (p, q) = here_lem raw match_in kw in
      elim (Bool-cases (here raw match_in kw)) [
        | inl e ↦ (λ h. (kw, inl refl, p e), λ h. ground (arith, e))
        | inr e ↦ (
          λ h. let (k, w, t) = f (ground (arith, e, h)) in (k, inr w, t),
          λ (k, w, t). elim w [
            | inl r ↦ absurd (not_true e (q (subst (Found raw match_in) r t)))
            | inr v ↦ ground (arith, e, g (k, v, t))
          ],
        )
      ]

  -- matchKeyWords admits an offer exactly if there are no key words, or one of them is found.
  pub match_key_words-Found :
      (raw : RawAd F) (ctx : Context)
      → (match_key_words contains raw ctx ≡ true) ↔ (
          (ctx.key_words ≡ [])
          ⊎ ((kw : String) × Within kw ctx.key_words × Found raw ctx.match_in kw))
  unfolding match_key_words
  match_key_words-Found raw ctx = by_key_words ctx.key_words
    where
      by_key_words :
          (kws : List String)
          → ((elim kws [ [] ↦ true | k ∷ ks ↦ any_key_word contains raw ctx.match_in (k ∷ ks) ])
              ≡ true)
            ↔ ((kws ≡ []) ⊎ ((kw : String) × Within kw kws × Found raw ctx.match_in kw))
      by_key_words [] = (λ h. inl refl, λ h. refl)
      by_key_words (k ∷ ks) =
          let (f, g) = any_key_word-Found raw ctx.match_in (k ∷ ks) in
          (λ h. inr (f h), λ h. elim h [ inl e ↦ ground (arith, e) | inr w ↦ g w ])
