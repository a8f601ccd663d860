-- ===== src/Rank/Video/Choice.antt =====
-- What Select and randomCopy of rank/video/video_rank.go may return.
use real_api_server.Prelude.{
  ltb, ◌≤◌, ℕ, ◌-◌, ◌≡◌, ◌⊎◌, inl, inr, refl, String, Bool, true, false, ◌||◌, Option, none, some,
  List, [], ◌∷◌, ◌++◌, arith, eq_iff, ◌==◌, nat_eq, string_eq, if◌then◌else◌, Bool-cases,
  Option-cases, All, Within, All-append_one, subst, sym, All-of-Within, not,
}
use real_api_server.Prelude.Int.{pos, ◌≤ℤ◌, pos_part, leb_ℤ}
use real_api_server.Prelude.Run.{Run, Returns}
use real_api_server.HttpContext.{Context}
use real_api_server.RawAd.{RawAd}
use real_api_server.RawAd.Videos.{Video, named, video_of}
use real_api_server.RawAd.Media.{under}
use real_api_server.Rank.Draw.{InBound}
use real_api_server.Rank.Video.{
  VideoRank, VideoAnswer, Found, full, unmatched, matched, chose_video, find_video, copied,
  collect_videos, from_answer, select_videos,
}
use real_api_server.Rank.{slice_limit}
use real_api_server.Rank.Video.Draws.{random_videos-All}

-- A video that the client has: one of the list whose id, new or old, the request names.
abbrev pub Held : Context → List Video → Video → Type 0
Held ctx videos v =
    Within v videos × ((named ctx.cid_map v.id ≡ true) ⊎ (named ctx.cid_map v.old_id ≡ true))

either : {a b : Bool} → (a || b) ≡ true → (a ≡ true) ⊎ (b ≡ true)
either {a = true} h = inl refl
either {a = false} h = inr h

pub video_of-Within :
    (cid : List String) (videos : List Video) {v : Video}
    → video_of cid videos ≡ some v
    → Within v videos × ((named cid v.id ≡ true) ⊎ (named cid v.old_id ≡ true))
unfolding video_of
video_of-Within cid [] e = cc
video_of-Within cid (w ∷ videos) {v = v} e =
    elim (Bool-cases (named cid w.id || named cid w.old_id)) [
      | inl h ↦
          let same : w ≡ v = ground (arith, e, h) in
          (
            inl (sym same),
            subst (λ (u : Video). (named cid u.id ≡ true) ⊎ (named cid u.old_id ≡ true)) same
                (either h),
          )
      | inr h ↦
          let later = video_of-Within cid videos (ground (arith, e, h)) in (inr later.0, later.1)
    ]

named_one :
    (cid : List String) (c id : String)
    → named (c ∷ []) id ≡ true
    → named cid c ≡ true
    → named cid id ≡ true
unfolding named
named_one cid c id h k =
    let same : c ≡ id = ground (arith, h, eq_iff c id) in subst (λ t. named cid t ≡ true) same k

module _ {F : Type 0} where
  -- A copy of an offer, with other arguments, and with a video chosen that the client has or with
  -- the video that the offer had.
  abbrev pub Copy : Context → RawAd F → RawAd F → Type 0
  Copy ctx raw out =
      (args : List String) × (v : Option Video) × (out
        ≡ record raw { attach_args = args; video_chosen = v })
      × ((v ≡ raw.video_chosen)
          ⊎ ((w : Video) × (v ≡ some w) × Held ctx (under "ALL" raw.videos) w))

  -- The copies of the offers of a list.
  abbrev pub FromList : Context → List (RawAd F) → RawAd F → Type 0
  FromList ctx raws out = (raw : RawAd F) × Within raw raws × Copy ctx raw out

  find_video-Within :
      (n : ℕ) (rank : VideoRank F) (raws : List (RawAd F)) {raw : RawAd F}
      → find_video n rank raws ≡ matched raw
      → Within raw raws
  unfolding find_video
  find_video-Within n rank [] e = cc
  find_video-Within n rank (r ∷ raws) {raw = raw} e = elim (Bool-cases (n == 0)) [
    | inl z ↦ ground (arith, e, z)
    | inr z ↦ elim (Bool-cases (r.uniq_id == rank.uniq_id)) [
      | inl q ↦ inl (ground (arith, e, z, q))
      | inr q ↦ inr (find_video-Within n rank raws (ground (arith, e, z, q)))
    ]
  ]

  Found-cases : (o : Found F) → (o ≡ full) ⊎ (o ≡ unmatched) ⊎ ((raw : RawAd F) × (o ≡ matched raw))
  Found-cases full = inl refl
  Found-cases unmatched = inr (inl refl)
  Found-cases (matched raw) = inr (inr (raw, refl))

  chose_video-Copy :
      (ctx : Context) (raw : RawAd F) (args : List String) (c : String)
      → named ctx.cid_map c ≡ true
      → Copy ctx raw (chose_video c (record raw { attach_args = args }))
  unfolding chose_video
  chose_video-Copy ctx raw args c h =
      elim (Option-cases (video_of (c ∷ []) (under "ALL" raw.videos))) [
        | inl e ↦ (args, raw.video_chosen, rw (e, chose_video) refl, inl refl)
        | inr (v, e) ↦
            let found = video_of-Within (c ∷ []) (under "ALL" raw.videos) e in
            (
              args,
              some v,
              rw (e, chose_video) refl,
              inr (
                v,
                refl,
                (
                  found.0,
                  elim found.1 [
                    | inl q ↦ inl (named_one ctx.cid_map c v.id q h)
                    | inr q ↦ inr (named_one ctx.cid_map c v.old_id q h)
                  ],
                ),
              ),
            )
      ]

  module _ (fmt_e fmt_po : F → String) (ctx : Context) (raws : List (RawAd F)) where
    copied-Copy :
        (rank : VideoRank F) (raw : RawAd F) → Copy ctx raw (copied fmt_e fmt_po ctx rank raw)
    unfolding copied chose_video
    copied-Copy rank raw = elim (Bool-cases (named ctx.cid_map rank.creative_id)) [
      | inl e ↦
          rw (e, copied)
            (chose_video-Copy ctx raw (raw.attach_args ++ fmt_e rank.ecpm ∷ fmt_po raw.payout ∷ [])
              rank.creative_id e)
      | inr e ↦ (
        raw.attach_args ++ fmt_e rank.ecpm ∷ fmt_po raw.payout ∷ [],
        raw.video_chosen,
        rw (e, copied) refl,
        inl refl,
      )
    ]

    collect_videos-All :
        (n : ℕ) (ranks : List (VideoRank F)) (out : List (RawAd F))
        → All (FromList ctx raws) out
        → All (FromList ctx raws) (collect_videos fmt_e fmt_po ctx raws n ranks out)
    unfolding collect_videos
    collect_videos-All n [] out h = h
    collect_videos-All n (rank ∷ ranks) out h = elim (Found-cases (find_video n rank raws)) [
      | inl e ↦ subst (All (FromList ctx raws)) (ground (arith, e)) h
      | inr (inl e) ↦
          subst (All (FromList ctx raws)) (ground (arith, e)) (collect_videos-All n ranks out h)
      | inr (inr (raw, e)) ↦
          let more : All (FromList ctx raws) (out ++ copied fmt_e fmt_po ctx rank raw ∷ []) =
            All-append_one (FromList ctx raws) out (copied fmt_e fmt_po ctx rank raw) h
              (raw, find_video-Within n rank raws e, copied-Copy rank raw) in
          subst (All (FromList ctx raws)) (ground (arith, e))
            (collect_videos-All (n - 1) ranks _ more)
    ]

    either_call :
        (b : Bool) (call other : Run (List (RawAd F)))
        → Returns (All (FromList ctx raws)) call
        → Returns (All (FromList ctx raws)) other
        → Returns (All (FromList ctx raws)) (if b then call else other)
    either_call true call other h k = h
    either_call false call other h k = k

    itself : All (FromList ctx raws) raws
    itself =
        All-of-Within (FromList ctx raws) raws
          (λ raw w. (raw, w, (raw.attach_args, raw.video_chosen, refl, inl refl)))

    from_answer-All :
        (draw : ℕ → ℕ → ℕ) (answer : Option (VideoAnswer F))
        → InBound draw
        → pos 0 ≤ℤ ctx.ad_num
        → ((rep : VideoAnswer F) → answer ≡ some rep → pos_part rep.tot ≤ slice_limit)
        → Returns (All (FromList ctx raws)) (from_answer fmt_e fmt_po draw raws ctx answer)
    unfolding from_answer
    from_answer-All draw none bound z fits =
        random_videos-All (FromList ctx raws) draw bound raws ctx z itself
    from_answer-All draw (some rep) bound z fits =
        let any = random_videos-All (FromList ctx raws) draw bound raws ctx z itself in
        either_call (not (rep.err_msg == "ok")) _ _ any (
          either_call (leb_ℤ rep.tot (pos 0)) _ _ any
            (elim (Bool-cases (ltb slice_limit (pos_part rep.tot))) [
              | inl e ↦ absurd (ground (arith, e, fits rep refl))
              | inr e ↦ rw e (collect_videos-All (pos_part rep.tot) rep.ranks [] tt)
            ]))

    -- If the draws are below their bounds, AdNum is not negative and the answer announces no more
    -- offers than a slice may have, Select of the video ranking
    -- returns copies of the offers that it gets, and a video that it
    -- chooses is one of the offer's that the client has.
    pub select_videos-FromList :
        (draw : ℕ → ℕ → ℕ) (ask : List (RawAd F) → Context → Option (VideoAnswer F))
        → InBound draw
        → pos 0 ≤ℤ ctx.ad_num
        → ((rep : VideoAnswer F) → ask raws ctx ≡ some rep → pos_part rep.tot ≤ slice_limit)
        → Returns (All (FromList ctx raws)) (select_videos fmt_e fmt_po draw ask raws ctx)
    unfolding select_videos
    select_videos-FromList draw ask bound z fits = from_answer-All draw (ask raws ctx) bound z fits
