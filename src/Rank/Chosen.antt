-- ===== src/Rank/Chosen.antt =====
-- The offers that Select and SelectWg of rank/rank.go return.
use real_api_server.Prelude.{
  ℕ, ◌+◌, ◌-◌, ◌<◌, ap, ◌≡◌, ◌⊎◌, inl, inr, refl, subst, String, Bool, true, false, not, ◌&&◌, ◌||◌,
  Option, some, none, List, [], ◌∷◌, ◌++◌, arith, length, ltb, Bool-cases, ◌==◌, nat_eq, string_eq,
  if◌then◌else◌, All, All-append_one, All-of-Within, Within,
}
use real_api_server.Prelude.Int.{ℤ, pos, pos_part, leb_ℤ}
use real_api_server.HttpContext.{Context, is_wugan}
use real_api_server.RawAd.{RawAd}
use real_api_server.Prelude.Run.{Run, ok, panic, ◌>>=◌}
use real_api_server.Rank.{
  Conf, PostReq, PostResp, RespData, Picked, full, unmatched, matched, copy_white, copy_others,
  random_copy, white, create_post_data, create_post_data_wg, make_offers, rank_api, cpl_offers,
  pick, with_args, collect, use_answer, ranked, select, select_wg, slice_limit,
}

All-if :
    {A : Type 0} (P : A → Type 0) (b : Bool) (x y : List A)
    → All P x
    → All P y
    → All P (if b then x else y)
All-if P true x y h k = h
All-if P false x y h k = k

pub holds-if :
    {V : Type 0} (P : V → Type 0) (b : Bool) (x y : V) → P x → P y → P (if b then x else y)
holds-if P true x y h k = h
holds-if P false x y h k = k

no_apis : (l : List String) → (length l == 0) ≡ true → l ≡ []
no_apis [] h = refl
no_apis (x ∷ l) h = ground (arith, h)

-- A context with another method.
abbrev pub Ranked : Context → Context → Type 0
Ranked ctx c = (m : String) × (c ≡ record ctx { method = m })

method-Ranked : (ctx c : Context) (m : String) → Ranked ctx c → Ranked ctx (record c { method = m })
method-Ranked ctx c m (n, e) = (m, ap (λ (x : Context). record x { method = m }) e)

-- the requests that Select does not rank
abbrev pub displayed : Context → Bool
displayed ctx =
    ctx.ad_type == "5" || (ctx.ad_type == "7" || (ctx.ad_type == "9" || ctx.ad_type == "10"))

module _ {F : Type 0} where
  abbrev pub cpl_list : List (RawAd F) → Context → List (RawAd F)
  cpl_list raws ctx =
      if not (is_wugan ctx) && ctx.slot_id == "1244" then cpl_offers ctx.ad_num raws [] else []

  -- A copy of an offer of a list, with other arguments.
  abbrev pub Offered : List (RawAd F) → RawAd F → Type 0
  Offered raws out =
      (raw : RawAd F) × Within raw raws
      × ((args : List String) × (out ≡ record raw { attach_args = args }))

  itself : (raws : List (RawAd F)) → All (Offered raws) raws
  itself raws = All-of-Within (Offered raws) raws (λ raw w. (raw, w, (raw.attach_args, refl)))

  module _ (P : RawAd F → Type 0) where
    copy_white-All :
        (n : ℤ) (raws plist : List (RawAd F))
        → All P raws
        → All P plist
        → All P (copy_white n raws plist)
    unfolding copy_white
    copy_white-All n [] plist h k = k
    copy_white-All n (raw ∷ raws) plist (p, h) k =
        let more = All-if P raw.is_t (plist ++ raw ∷ []) plist (All-append_one P plist raw k p) k in
        All-if P _ _ _ more (copy_white-All n raws _ h more)

    copy_others-All :
        (n : ℤ) (raws plist : List (RawAd F))
        → All P raws
        → All P plist
        → All P (copy_others n raws plist)
    unfolding copy_others
    copy_others-All n [] plist h k = k
    copy_others-All n (raw ∷ raws) plist (p, h) k =
        let more = All-if P raw.is_t plist (plist ++ raw ∷ []) k (All-append_one P plist raw k p) in
        All-if P _ _ _ more (copy_others-All n raws _ h more)

    random_copy-All :
        (raws : List (RawAd F)) (ctx : Context) → All P raws → All P (random_copy raws ctx).0
    unfolding random_copy
    random_copy-All raws ctx h = All-if P _ raws _ h (
        copy_others-All ctx.ad_num raws (copy_white ctx.ad_num raws []) h
          (copy_white-All ctx.ad_num raws [] h tt))

    cpl_offers-All :
        (n : ℤ) (raws out : List (RawAd F)) → All P raws → All P out → All P (cpl_offers n raws out)
    unfolding cpl_offers
    cpl_offers-All n [] out h k = k
    cpl_offers-All n (raw ∷ raws) out (p, h) k =
        cpl_offers-All n raws _ h (All-if P _ _ _ (All-append_one P out raw k p) k)

    white-All : (b : Bool) (raws : List (RawAd F)) → All P raws → All P (white b raws)
    unfolding white
    white-All b [] h = tt
    white-All b (raw ∷ raws) (p, h) =
        All-if P _ (raw ∷ white b raws) _ (p, white-All b raws h) (white-All b raws h)

  pub Picked-cases :
      (o : Picked F) → (o ≡ full) ⊎ (o ≡ unmatched) ⊎ ((raw : RawAd F) × (o ≡ matched raw))
  Picked-cases full = inl refl
  Picked-cases unmatched = inr (inl refl)
  Picked-cases (matched raw) = inr (inr (raw, refl))

  pick-Within :
      (n : ℕ) (rc : RespData F) (raws : List (RawAd F)) {raw : RawAd F}
      → pick n rc raws ≡ matched raw
      → Within raw raws
  unfolding pick
  pick-Within n rc [] e = cc
  pick-Within n rc (r ∷ raws) {raw = raw} e = elim (Bool-cases (n == 0)) [
    | inl z ↦ ground (arith, e, z)
    | inr z ↦ elim (Bool-cases (r.id == rc.id && r.channel == rc.channel)) [
      | inl q ↦ inl (ground (arith, e, z, q))
      | inr q ↦ inr (pick-Within n rc raws (ground (arith, e, z, q)))
    ]
  ]

  module _ (fmt_e fmt_po : F → String) (raws : List (RawAd F)) where
    collect-All :
        (method : String) (n : ℕ) (rcs : List (RespData F)) (out : List (RawAd F)) (ctx : Context)
        → All (Offered raws) out
        → All (Offered raws) (collect fmt_e fmt_po method raws n rcs out ctx).0
    unfolding collect with_args
    collect-All method n [] out ctx h = h
    collect-All method n (rc ∷ rcs) out ctx h = elim (Picked-cases (pick n rc raws)) [
      | inl e ↦ subst (All (Offered raws)) (ground (arith, e)) h
      | inr (inl e) ↦
          subst (All (Offered raws)) (ground (arith, e)) (collect-All method n rcs out ctx h)
      | inr (inr (raw, e)) ↦
          let more : All (Offered raws) (out ++ with_args fmt_e fmt_po raw rc ∷ []) =
            All-append_one (Offered raws) out (with_args fmt_e fmt_po raw rc) h (
              raw,
              pick-Within n rc raws e,
              (raw.attach_args ++ fmt_e rc.ecpm ∷ fmt_po raw.payout ∷ [], refl),
            ) in
          subst (All (Offered raws)) (ground (arith, e)) (
            collect-All method (n - 1) rcs _
              (record ctx { method = if method == "" then rc.method else method }) more)
    ]

    collect-Ranked :
        (ctx : Context) (method : String) (n : ℕ) (rcs : List (RespData F)) (out : List (RawAd F))
        (c : Context)
        → Ranked ctx c
        → Ranked ctx (collect fmt_e fmt_po method raws n rcs out c).1
    unfolding collect
    collect-Ranked ctx method n [] out c h = h
    collect-Ranked ctx method n (rc ∷ rcs) out c h = elim (Picked-cases (pick n rc raws)) [
      | inl e ↦ subst (Ranked ctx) (ground (arith, e)) h
      | inr (inl e) ↦
          subst (Ranked ctx) (ground (arith, e)) (collect-Ranked ctx method n rcs out c h)
      | inr (inr (raw, e)) ↦ subst (Ranked ctx) (ground (arith, e)) (
          collect-Ranked ctx method (n - 1) rcs (out ++ with_args fmt_e fmt_po raw rc ∷ [])
            (record c { method = if method == "" then rc.method else method })
            (method-Ranked ctx c _ h))
    ]

  -- The rank server is not configured, or announces more offers than fit in a slice behind `n` others.
  abbrev pub Stops : Conf → (String → ℕ → PostReq F → Option (PostResp F)) → ℕ → Type 0
  Stops conf ask n =
      (conf.rank_apis ≡ [])
      ⊎ ((api : String) × (user : ℕ) × (post : PostReq F) × (rep : PostResp F) × (ask api user post
            ≡ some rep)
          × (slice_limit < pos_part rep.tot + n))

  -- A call that panics only if `S` holds, and else returns offers of a list and a context that
  -- differs in its method at most.
  abbrev pub Chooses :
      Type 0 → List (RawAd F) → Context → Run (List (RawAd F) × Context × ℕ) → Type 0
  Chooses S raws ctx panic = S
  Chooses S raws ctx (ok (out, c, n)) = All (Offered raws) out × Ranked ctx c

  abbrev Answers : Type 0 → List (RawAd F) → Context → Run (List (RawAd F) × Context) → Type 0
  Answers S raws ctx panic = S
  Answers S raws ctx (ok (out, c)) = All (Offered raws) out × Ranked ctx c

  counted-Chooses :
      (S : Type 0) (raws : List (RawAd F)) (ctx : Context) (n : ℕ)
      (call : Run (List (RawAd F) × Context))
      → Answers S raws ctx call
      → Chooses S raws ctx (call >>= λ (out, c). ok (out, c, n))
  counted-Chooses S raws ctx n panic h = h
  counted-Chooses S raws ctx n (ok v) h = h

  copies :
      (raws : List (RawAd F)) (ctx : Context)
      → All (Offered raws) (random_copy raws ctx).0 × Ranked ctx (random_copy raws ctx).1
  unfolding random_copy
  copies raws ctx = (random_copy-All (Offered raws) raws ctx (itself raws), ("randcp", refl))

  use_answer-Answers :
      (fmt_e fmt_po : F → String) (S : Type 0) (first raws : List (RawAd F)) (ctx : Context)
      (answer : Option (PostResp F))
      → ((rep : PostResp F) → answer ≡ some rep → slice_limit < pos_part rep.tot + length first → S)
      → All (Offered raws) first
      → Answers S raws ctx (use_answer fmt_e fmt_po first raws ctx answer)
  unfolding use_answer
  use_answer-Answers fmt_e fmt_po S first raws ctx none f h = copies raws ctx
  use_answer-Answers fmt_e fmt_po S first raws ctx (some rep) f h =
      holds-if (Answers S raws ctx) (not (rep.err_msg == "ok")) _ _ (copies raws ctx) (
        holds-if (Answers S raws ctx) (leb_ℤ rep.tot (pos 0)) _ _ (tt, (ctx.method, refl))
          (elim (Bool-cases (ltb slice_limit (pos_part rep.tot + length first))) [
            | inl e ↦ rw e (f rep refl (ground (arith, e)))
            | inr e ↦ rw e (
              collect-All fmt_e fmt_po raws rep.method (pos_part rep.tot) rep.resp first ctx h,
              collect-Ranked fmt_e fmt_po raws ctx rep.method (pos_part rep.tot) rep.resp first ctx
                  (ctx.method, refl),
            )
          ]))

  module _ (fmt_e fmt_po : F → String) (atoi : String → Option ℤ) (conf : Conf)
      (ask : String → ℕ → PostReq F → Option (PostResp F)) where
    ranked-Chooses :
        (first raws : List (RawAd F)) (post : PostReq F) (ctx : Context) (i_host : ℕ)
        → All (Offered raws) first
        → Chooses
            (Stops conf ask (length first))
            raws
            ctx
            (ranked fmt_e fmt_po atoi conf ask first raws post ctx i_host)
    unfolding ranked
    ranked-Chooses first raws post ctx i_host h =
        let api = rank_api fmt_e fmt_po atoi conf ask ctx i_host in
        elim (Bool-cases (length conf.rank_apis == 0)) [
          | inl e ↦ rw e (inl (no_apis conf.rank_apis e))
          | inr e ↦ rw e (
              counted-Chooses (Stops conf ask (length first)) raws ctx (i_host + 1)
                (use_answer fmt_e fmt_po first raws ctx (ask api ctx.user_hash post))
                (use_answer-Answers fmt_e fmt_po (Stops conf ask (length first)) first raws ctx
                  (ask api ctx.user_hash post)
                  (λ rep q big. inr (api, ctx.user_hash, post, rep, q, big)) h))
        ]

    cpls : (raws : List (RawAd F)) (ctx : Context) → All (Offered raws) (cpl_list raws ctx)
    cpls raws ctx =
        All-if (Offered raws) (not (is_wugan ctx) && ctx.slot_id == "1244") _ []
          (cpl_offers-All (Offered raws) ctx.ad_num raws [] (itself raws) tt) tt

    select-Chooses :
        (raws : List (RawAd F)) (ctx : Context) (i_host : ℕ)
        → Chooses (Stops conf ask 0) raws ctx (select fmt_e fmt_po atoi conf ask raws ctx i_host)
    unfolding select
    select-Chooses [] ctx i_host = (tt, (ctx.method, refl))
    select-Chooses (raw ∷ rest) ctx i_host =
        let raws = raw ∷ rest in
        holds-if (Chooses (Stops conf ask 0) raws ctx) (displayed ctx) _ _ (copies raws ctx) (
          holds-if (Chooses (Stops conf ask 0) raws ctx) (ltb 0 (length (cpl_list raws ctx))) _ _
            (cpls raws ctx, ("cpl", refl))
            (ranked-Chooses [] raws (create_post_data atoi raws ctx) ctx i_host tt))

    select_wg-Chooses :
        (raws : List (RawAd F)) (ctx : Context) (i_host : ℕ)
        → Chooses
            (Stops conf ask (length (white true raws)))
            raws
            ctx
            (select_wg fmt_e fmt_po atoi conf ask raws ctx i_host)
    unfolding select_wg create_post_data_wg
    select_wg-Chooses [] ctx i_host = (tt, (ctx.method, refl))
    select_wg-Chooses (raw ∷ rest) ctx i_host =
        let raws = raw ∷ rest in
        let whites = white-All (Offered raws) true raws (itself raws) in
        holds-if (Chooses (Stops conf ask (length (white true raws))) raws ctx) (displayed ctx) _ _
          (copies raws ctx)
          (holds-if (Chooses (Stops conf ask (length (white true raws))) raws ctx)
            (ltb 0 (length (cpl_list raws ctx))) _ _ (cpls raws ctx, ("cpl", refl))
            (holds-if (Chooses (Stops conf ask (length (white true raws))) raws ctx)
              (length (make_offers atoi ctx (white false raws)) == 0) _ _
              (whites, (ctx.method, refl))
              (ranked-Chooses (white true raws) raws (create_post_data_wg atoi raws ctx).0 ctx
                i_host whites)))

    -- Select and SelectWg return only offers that they get, each with other arguments at most,
    -- whatever the rank server answers, and change the context in its method at most. They panic
    -- only if no rank server is configured, or if its answer announces more offers than fit in a
    -- slice, for SelectWg behind the white offers.
    pub select-Offered :
        (raws : List (RawAd F)) (ctx : Context) (i_host : ℕ)
        → Chooses (Stops conf ask 0) raws ctx (select fmt_e fmt_po atoi conf ask raws ctx i_host)
          × Chooses
              (Stops conf ask (length (white true raws)))
              raws
              ctx
              (select_wg fmt_e fmt_po atoi conf ask raws ctx i_host)
    select-Offered raws ctx i_host =
        (select-Chooses raws ctx i_host, select_wg-Chooses raws ctx i_host)
