-- ===== src/RawAd/Videos.antt =====
-- The videos of an offer in raw_ad/raw_ad.go, and the choice among a list of them.
pub mod Orientation
use real_api_server.Prelude.{
  ℕ, String, Bool, true, false, not, ◌&&◌, ◌||◌, Option, none, some, List, [], ◌∷◌, ◌==◌, nat_eq,
  string_eq, if◌then◌else◌,
}
use real_api_server.Prelude.Int.{ℤ, leb_ℤ, ltb_ℤ}

pub record Video : Type 0 where
  pub id : String
  pub old_id : String
  pub w : ℤ
  pub h : ℤ
  pub url : String

-- the orientation that a screen type asks for: 0 any, 1 landscape, 2 portrait
unfoldable pub oriented : ℕ → Video → Bool
oriented rule v =
    if rule == 0
    then true
    else if rule == 1
    then leb_ℤ v.h v.w
    else if rule == 2
    then ltb_ℤ v.w v.h
    else false

-- the loop of TryGetMatchedVideo, with the video at candidateIndex
unfoldable pub try_videos : ℕ → Option Video → List Video → Option Video
unfolding oriented
try_videos rule candidate [] = candidate
try_videos rule candidate (v ∷ videos) =
    let next : Option Video = elim candidate [ none ↦ some v | some c ↦ some c ] in
    let skipped = try_videos rule candidate videos in
    let passed = try_videos rule next videos in
    if v.url == "" then skipped else if oriented rule v then some v else passed

-- the loop of getMatchedVideo
unfoldable pub first_oriented : ℕ → List Video → Option Video
unfolding oriented
first_oriented rule [] = none
first_oriented rule (v ∷ videos) =
    let rest = first_oriented rule videos in
    if v.url == "" then rest else if oriented rule v then some v else rest

-- `_, ok := cid[id]`
unfoldable pub named : List String → String → Bool
named [] id = false
named (c ∷ cid) id = let rest = named cid id in if c == id then true else rest

-- the loop of getVideoByCids, and of ChoseVideoById with one id
unfoldable pub video_of : List String → List Video → Option Video
unfolding named
video_of cid [] = none
video_of cid (v ∷ videos) =
    let rest = video_of cid videos in if named cid v.id || named cid v.old_id then some v else rest
