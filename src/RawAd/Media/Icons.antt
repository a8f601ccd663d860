-- ===== src/RawAd/Media/Icons.antt =====
-- When getMatchedIcon finds an icon, and which video VideoChoseCreatives chooses.
use real_api_server.Prelude.{
  ℕ, ◌%◌, ◌<◌, ◌≡◌, refl, String, Bool, true, Option, none, some, List, [], ◌∷◌, arith, length,
  get_elem?, is_some, ◌==◌, string_eq, if◌then◌else◌, All, All-get_elem,
}
use real_api_server.Prelude.Int.{pos, minus_one}
use real_api_server.Prelude.Dict.{Dict}
use real_api_server.Prelude.Float.{Float64}
use real_api_server.GoHeap.Slots.{get_elem?-in}
use real_api_server.HttpContext.{Context}
use real_api_server.RawAd.{RawAd}
use real_api_server.RawAd.Image.{Img}
use real_api_server.RawAd.Videos.{video_of}
use real_api_server.RawAd.Media.{
  under, or_else, get_rand_img, get_rand_matched_img, get_matched_icon, get_video_by_cids,
  video_chose_creatives,
}

-- A map of icons with an entry, and with an icon in each entry.
abbrev pub Full : Dict (List Img) → Type 0
Full icons = (0 < length icons) × All (λ (e : String × List Img). 0 < length e.1) icons

mod_lt : (n l : ℕ) → 0 < l → n % l < l
mod_lt n l h = grind arith

drawn_icon-is_some :
    (sel : ℕ) (imgs : List Img)
    → 0 < length imgs
    → is_some (elim imgs as (λ l. Option Img) [
      | [] ↦ none
      | x ∷ xs ↦ get_elem? (x ∷ xs) (sel % length (x ∷ xs))
    ])
      ≡ true
drawn_icon-is_some sel [] h = absurd (omega arith)
drawn_icon-is_some sel (x ∷ xs) h =
    let (img, e) = get_elem?-in (x ∷ xs) (sel % length (x ∷ xs)) (mod_lt sel (length (x ∷ xs)) h) in
    rw e refl

get_rand_img-is_some :
    (n sel : ℕ) (icons : Dict (List Img)) → Full icons → is_some (get_rand_img n sel icons) ≡ true
unfolding get_rand_img
get_rand_img-is_some n sel [] (h, k) = absurd (omega arith)
get_rand_img-is_some n sel (e ∷ m) (h, k) =
    let (entry, q) = get_elem?-in (e ∷ m) (n % length (e ∷ m)) (mod_lt n (length (e ∷ m)) h) in
    rw (q, get_rand_img)
      (drawn_icon-is_some sel entry.1
        (All-get_elem (λ (d : String × List Img). 0 < length d.1) (e ∷ m) (n % length (e ∷ m)) k q))

or_else-is_some : {A : Type 0} (o p : Option A) → is_some p ≡ true → is_some (or_else o p) ≡ true
unfolding or_else
or_else-is_some none p h = h
or_else-is_some (some a) p h = refl

module _ (fl : Float64) where
  -- An offer with a full map of icons gets one, whatever is drawn.
  pub get_matched_icon-is_some :
      (r r' n sel : ℕ) (raw : RawAd fl.F) (lang : String)
      → Full raw.icons
      → is_some (get_matched_icon fl r r' n sel raw lang) ≡ true
  unfolding get_matched_icon
  get_matched_icon-is_some r r' n sel raw lang h =
      let last = get_rand_img-is_some n sel raw.icons h in
      let other : Option Img =
        if lang == "ALL"
        then none
        else get_rand_matched_img fl r' raw.icons "ALL" (pos 1) (pos 1) minus_one in
      or_else-is_some (get_rand_matched_img fl r raw.icons lang (pos 1) (pos 1) minus_one)
        (or_else other (get_rand_img n sel raw.icons))
        (or_else-is_some other (get_rand_img n sel raw.icons) last)

  pub video_chose_creatives-video :
      (coin : ℕ → ℕ → Bool) (ctx : Context) (raw : RawAd fl.F)
      → (video_chose_creatives fl coin ctx raw).1.video_chosen
        ≡ or_else raw.video_chosen (video_of ctx.cid_map (under "ALL" raw.videos))
  unfolding video_chose_creatives get_video_by_cids
  video_chose_creatives-video coin ctx raw = refl
