-- ===== src/RawAd/Media.antt =====
-- The pictures and videos that raw_ad/raw_ad.go chooses for a request. Draws of rand.Int() are
-- numbers; `coin` is that of GetMaxMatchedImg.
pub mod Match
pub mod Creative
pub mod Icons
use real_api_server.Prelude.{
  ℕ, zero, suc, ◌+◌, ◌/◌, ◌%◌, String, Bool, true, false, not, ◌&&◌, ◌||◌, Option, none, some, List,
  [], ◌∷◌, ◌++◌, length, get_elem?, is_some, ◌==◌, nat_eq, string_eq, if◌then◌else◌,
}
use real_api_server.Prelude.Int.{ℤ, pos, negsuc, minus_one, eqb_ℤ, ltb_ℤ}
use real_api_server.Prelude.Dict.{Dict, lookup, insert}
use real_api_server.Prelude.Float.{Float64}
use real_api_server.HttpContext.{Context}
use real_api_server.RawAd.{RawAd}
use real_api_server.RawAd.Image.{Img, rule_match, laplace_smooth, get_max_matched_img}
use real_api_server.RawAd.Videos.{Video, try_videos, first_oriented, named, video_of}

-- m[lang] of a map of slices
pub under {ℓ} : {A : Type ℓ} → String → Dict (List A) → List A
under lang m = elim (lookup lang m) [ none ↦ [] | some xs ↦ xs ]

-- m[lang], or m["ALL"] if that is empty
pub under_or_all {ℓ} : {A : Type ℓ} → String → Dict (List A) → List A
unfolding under
under_or_all lang m = elim (under lang m) [ [] ↦ under "ALL" m | x ∷ xs ↦ x ∷ xs ]

-- The loop of GetRandMatchedImg from a drawn place on; `left` rounds are left.
pub from_place : (Img → Bool) → Bool → ℕ → List Img → ℕ → ℕ → Option Img
from_place fits any_size r imgs zero i = none
from_place fits any_size r imgs (suc left) i =
    let rest = from_place fits any_size r imgs left (i + 1) in
    elim (get_elem? imgs ((i + r) % length imgs)) [
      | none ↦ none
      | some img ↦ if any_size || fits img then some img else rest
    ]

-- getRandImg: `n` draws an entry of the map, `sel` a picture of it
pub get_rand_img : ℕ → ℕ → Dict (List Img) → Option Img
get_rand_img n sel [] = none
get_rand_img n sel (e ∷ m) = elim (get_elem? (e ∷ m) (n % length (e ∷ m))) [
  | none ↦ none
  | some (k, imgs) ↦ elim imgs [ [] ↦ none | x ∷ xs ↦ get_elem? (x ∷ xs) (sel % length (x ∷ xs)) ]
]

-- AddIcon, AddCreative: the picture goes under its language
pub add_img : Img → Dict (List Img) → Dict (List Img)
unfolding under
add_img img m = insert img.lang (under img.lang m ++ img ∷ []) m

pub add_imgs : List Img → Dict (List Img) → Dict (List Img)
unfolding add_img
add_imgs [] m = m
add_imgs (img ∷ imgs) m = add_imgs imgs (add_img img m)

-- the loop of getImageByCids
pub image_of : List String → List Img → Option Img
unfolding named
image_of cid [] = none
image_of cid (img ∷ imgs) =
    let rest = image_of cid imgs in
    if named cid img.id || named cid img.old_id then some img else rest

-- o, or p where there is none
unfoldable pub or_else : {A : Type 0} → Option A → Option A → Option A
or_else none p = p
or_else (some a) p = some a

module _ (fl : Float64) where
  pub get_rand_matched_img : ℕ → Dict (List Img) → String → ℤ → ℤ → ℤ → Option Img
  unfolding from_place under
  get_rand_matched_img r m lang w h rule =
      let imgs = under lang m in
      from_place (λ img. rule_match fl rule img w h) (eqb_ℤ w (pos 0) || eqb_ℤ h (pos 0))
        (r % length imgs) imgs (length imgs) 0

  -- `r`, `r'`, `n`, `sel` are the draws of its calls
  pub get_matched_icon : ℕ → ℕ → ℕ → ℕ → RawAd fl.F → String → Option Img
  unfolding get_rand_matched_img get_rand_img or_else
  get_matched_icon r r' n sel raw lang =
      or_else (get_rand_matched_img r raw.icons lang (pos 1) (pos 1) minus_one) (
        or_else
          (if lang == "ALL"
            then none
            else get_rand_matched_img r' raw.icons "ALL" (pos 1) (pos 1) minus_one)
          (get_rand_img n sel raw.icons))

  pub get_imgs : RawAd fl.F → Context → List Img
  unfolding under_or_all
  get_imgs raw ctx = under_or_all ctx.lang raw.creatives

  pub get_videos : RawAd fl.F → Context → List Video
  unfolding under_or_all
  get_videos raw ctx = under_or_all ctx.lang raw.videos

  pub try_get_matched_video : RawAd fl.F → Context → Option Video
  unfolding get_videos try_videos
  try_get_matched_video raw ctx = try_videos ctx.video_screen_type none (get_videos raw ctx)

  pub get_matched_video : RawAd fl.F → String → ℤ → ℤ → Option Video
  unfolding under_or_all first_oriented
  get_matched_video raw lang w h =
      first_oriented (if ltb_ℤ w h then 2 else 1) (under_or_all lang raw.videos)

  pub get_video_by_cids : RawAd fl.F → List String → Option Video
  unfolding under video_of
  get_video_by_cids raw cid = video_of cid (under "ALL" raw.videos)

  pub get_image_by_cids : RawAd fl.F → List String → Option Img
  unfolding under image_of
  get_image_by_cids raw cid = image_of cid (under "ALL" raw.creatives)

  pub chose_video_by_id : String → RawAd fl.F → Bool × RawAd fl.F
  unfolding under video_of
  chose_video_by_id cid raw = elim (video_of (cid ∷ []) (under "ALL" raw.videos)) [
    | none ↦ (false, raw)
    | some v ↦ (true, record raw { video_chosen = some v })
  ]

  -- the loop of HasMatchedCreative over the sizes of the rendered pictures
  pub render_near : fl.F → List (ℕ × String) → Bool
  unfolding laplace_smooth
  render_near ratio [] = false
  render_near ratio ((size, url) ∷ rest) =
      let later = render_near ratio rest in
      if fl.less
        (fl.abs (fl.sub (laplace_smooth fl (pos (size / 10000)) (pos (size % 10000))) ratio))
        (fl.literal 1 10)
      then true
      else later

  module _ (coin : ℕ → ℕ → Bool) where
    pub video_get_matched_img : RawAd fl.F → Context → Option Img
    unfolding or_else
    video_get_matched_img raw ctx =
        let w : ℤ = if ctx.video_screen_type == 2 then pos 100 else pos 190 in
        or_else (get_max_matched_img fl coin raw.creatives ctx.lang w (pos 100) (negsuc 1) false)
          (get_max_matched_img fl coin raw.creatives "ALL" w (pos 100) (negsuc 1) false)

    pub video_chose_creatives : Context → RawAd fl.F → Bool × RawAd fl.F
    unfolding or_else video_get_matched_img get_image_by_cids get_video_by_cids
    video_chose_creatives ctx raw =
        let raw' = record raw {
          image_chosen =
              or_else raw.image_chosen
                (or_else (get_image_by_cids raw ctx.cid_map) (video_get_matched_img raw ctx));
        } in
        let v = or_else raw.video_chosen (get_video_by_cids raw ctx.cid_map) in
        (is_some v && is_some raw'.image_chosen, record raw' { video_chosen = v })

    -- the second call of GetMaxMatchedImg draws by `coin'`
    pub has_matched_creative : (ℕ → ℕ → Bool) → RawAd fl.F → Context → Bool
    unfolding render_near laplace_smooth
    has_matched_creative coin' raw ctx =
        let best = λ (c : ℕ → ℕ → Bool) (lang : String).
          get_max_matched_img fl c raw.creatives lang ctx.img_w ctx.img_h ctx.img_rule true in
        if length raw.creatives == 0
        then false
        else if is_some (best coin ctx.lang)
        then true
        else if not (ctx.lang == "ALL") && is_some (best coin' "ALL")
        then true
        else render_near (laplace_smooth fl ctx.img_w ctx.img_h) raw.render_imgs

    pub has_matched_native_video : (ℕ → ℕ → Bool) → ℕ → ℕ → ℕ → ℕ → RawAd fl.F → Context → Bool
    unfolding has_matched_creative get_matched_icon try_get_matched_video
    has_matched_native_video coin' r r' n sel raw ctx =
        if length raw.videos == 0
        then false
        else if not (has_matched_creative coin' raw ctx)
        then false
        else if not (is_some (get_matched_icon r r' n sel raw ctx.lang))
        then false
        else is_some (try_get_matched_video raw ctx)
