-- ===== src/Rank/Video.antt =====
-- rank/video/video_rank.go: the choice among the offers and the creatives of a video request.
-- `draw i l` is the i-th `rand.Intn(l)`. `ask` is the exchange with the rank server about the offers,
-- `none` for each of its errors, `fmt_e` and `fmt_po` are the texts of `fmt.Sprintf`.
pub mod Draws
pub mod Choice
use real_api_server.Prelude.{
  ℕ, suc, ◌+◌, ◌-◌, String, Bool, true, false, not, Option, none, some, List, [], ◌∷◌, ◌++◌, map,
  length, get_elem?, leb, ltb, ◌==◌, nat_eq, string_eq, if◌then◌else◌,
}
use real_api_server.Prelude.Int.{ℤ, pos, negsuc, pos_part, leb_ℤ}
use real_api_server.Prelude.Run.{Run, ok, panic, ◌>>=◌}
use real_api_server.HttpContext.{Context}
use real_api_server.RawAd.{RawAd}
use real_api_server.RawAd.Videos.{Video, named, video_of}
use real_api_server.RawAd.Media.{under}
use real_api_server.Rank.{pick_random, slice_limit}

pub record VideoRank (F : Type 0) : Type 0 where
  pub creative_id : String
  pub uniq_id : String
  pub ecpm : F

pub record VideoAnswer (F : Type 0) : Type 0 where
  pub tot : ℤ
  pub err_msg : String
  pub method : String
  pub ranks : List (VideoRank F)

pub record CreativeAnswer : Type 0 where
  pub tot : ℤ
  pub err_msg : String
  pub ids : List String

-- how the inner loop over the offers ends
pub data Found (F : Type 0) : Type 0 where
  full unmatched : Found F
  matched : RawAd F → Found F

module _ {F : Type 0} where
  -- randomCopy of AdNum offers; a negative AdNum is never reached, so that Intn(0) panics in the end
  unfoldable pub random_count : (ℕ → ℕ → ℕ) → List (RawAd F) → ℤ → Run (List (RawAd F))
  random_count draw raws (negsuc n) = panic
  random_count draw raws (pos n) =
      if leb (length raws) n
      then ok raws
      else do (plist, raws') ← pick_random draw n 0 (length raws) raws []; ok plist

  unfoldable pub random_videos : (ℕ → ℕ → ℕ) → List (RawAd F) → Context → Run (List (RawAd F))
  unfolding random_count
  random_videos draw raws ctx = random_count draw raws ctx.ad_num

  -- ChoseVideoById on a copy of the offer
  unfoldable pub chose_video : String → RawAd F → RawAd F
  chose_video cid raw = elim (video_of (cid ∷ []) (under "ALL" raw.videos)) [
    | none ↦ raw
    | some v ↦ record raw { video_chosen = some v }
  ]

  -- the inner loop for one entry of the answer
  unfoldable pub find_video : ℕ → VideoRank F → List (RawAd F) → Found F
  find_video n_tot rank [] = unmatched
  find_video n_tot rank (raw ∷ raws) =
      let rest = find_video n_tot rank raws in
      if n_tot == 0 then full else if raw.uniq_id == rank.uniq_id then matched raw else rest

  module _ (fmt_e fmt_po : F → String) where
    -- the copy of an offer that the answer names; the video is chosen only if the client has it
    unfoldable pub copied : Context → VideoRank F → RawAd F → RawAd F
    unfolding chose_video
    copied ctx rank raw =
        let raw' = record raw {
          attach_args = raw.attach_args ++ fmt_e rank.ecpm ∷ fmt_po raw.payout ∷ [];
        } in
        if named ctx.cid_map rank.creative_id then chose_video rank.creative_id raw' else raw'

    -- the outer loop, over the entries of the answer
    unfoldable pub collect_videos :
        Context → List (RawAd F) → ℕ → List (VideoRank F) → List (RawAd F) → List (RawAd F)
    unfolding find_video copied
    collect_videos ctx raws n_tot [] out = out
    collect_videos ctx raws n_tot (rank ∷ ranks) out = elim (find_video n_tot rank raws) [
      | full ↦ out
      | unmatched ↦ collect_videos ctx raws n_tot ranks out
      | matched raw ↦ collect_videos ctx raws (n_tot - 1) ranks (out ++ copied ctx rank raw ∷ [])
    ]

    -- Select once the rank server has answered
    unfoldable pub from_answer :
        (ℕ → ℕ → ℕ) → List (RawAd F) → Context → Option (VideoAnswer F) → Run (List (RawAd F))
    unfolding random_videos collect_videos
    from_answer draw raws ctx none = random_videos draw raws ctx
    from_answer draw raws ctx (some rep) =
        if not (rep.err_msg == "ok")
        then random_videos draw raws ctx
        else if leb_ℤ rep.tot (pos 0)
        then random_videos draw raws ctx
        else if ltb slice_limit (pos_part rep.tot)
        then panic
        else ok (collect_videos ctx raws (pos_part rep.tot) rep.ranks [])

    -- Select
    unfoldable pub select_videos :
        (ℕ → ℕ → ℕ)
        → (List (RawAd F) → Context → Option (VideoAnswer F))
        → List (RawAd F)
        → Context
        → Run (List (RawAd F))
    unfolding from_answer
    select_videos draw ask raws ctx = from_answer draw raws ctx (ask raws ctx)

  -- the loop of randomCreative: one video of each offer that has one; `i` counts the draws
  pub random_ids : (ℕ → ℕ → ℕ) → ℕ → (RawAd F → List Video) → List (RawAd F) → List String
  random_ids draw i videos [] = []
  random_ids draw i videos (raw ∷ raws) =
      let rest = random_ids draw (i + 1) videos raws in
      elim (get_elem? (videos raw) (draw i (length (videos raw)))) [
        | none ↦ rest
        | some v ↦ v.id ∷ rest
      ]

  -- SelectCreative; `videos` is GetVideos for the request
  pub select_creative :
      (ℕ → ℕ → ℕ)
      → (List (RawAd F) → Context → Option CreativeAnswer)
      → (RawAd F → List Video)
      → List (RawAd F)
      → Context
      → Run (List String)
  unfolding random_videos random_ids
  select_creative draw ask videos raws ctx =
      let any : Run (List String) = (do
        copies ← random_videos draw raws ctx
        ok (random_ids draw (length copies) videos copies)) in
      elim (ask raws ctx) [
        | none ↦ any
        | some rep ↦
            if not (rep.err_msg == "ok")
            then any
            else if leb_ℤ rep.tot (pos 0)
            then any
            else ok rep.ids
      ]
