-- ===== src/RawAd/Tests.antt =====
-- Concrete targets and pictures.
use real_api_server.Prelude.{
  ℕ, ◌≡◌, refl, true, false, ◌||◌, none, some, String, List, [], ◌∷◌, string_eq,
}
use real_api_server.Prelude.Int.{pos, eqb_ℤ}
use real_api_server.Prelude.Dict.{Dict}
use real_api_server.RawAd.Target.{Targets, add_target, holds}
use real_api_server.RawAd.Target.Laws.{IsFormed, added, find, find-add_target}
use real_api_server.RawAd.Image.{Img, rule_match, get_max_matched_img}
use real_api_server.RawAd.Image.Largest.{IsLargest, of_lang, get_max_matched_img-IsLargest}
use real_api_server.RawAd.Videos.{Video, try_videos}
use real_api_server.RawAd.Videos.Orientation.{IsBest, try_videos-IsBest}
use real_api_server.RawAd.Media.{under, get_rand_matched_img}
use real_api_server.RawAd.Media.Match.{IsMatch, get_rand_matched_img-IsMatch}
use real_api_server.Samples.{whole_floats}

abbrev not_in_cn : Targets
not_in_cn = record { key = "country"; belong = false; vals = "CN" ∷ [] } ∷ []

not_in_cn-IsFormed : IsFormed not_in_cn
unfolding holds
not_in_cn-IsFormed = (refl, (refl, tt), tt)

find-add_target_example :
    find "country" (add_target "country" "US" true not_in_cn)
    ≡ some (added "country" "US" true (find "country" not_in_cn))
find-add_target_example = find-add_target "country" "country" "US" true not_in_cn not_in_cn-IsFormed

abbrev img : ℕ → Img
img n = record { id = "i"; old_id = ""; width = pos n; height = pos n; url = "u"; lang = "en" }

abbrev imgs : Dict (List Img)
imgs = ("en", img 100 ∷ img 200 ∷ []) ∷ []

get_max_matched_img-IsLargest_example :
    IsLargest
      (λ i. rule_match whole_floats (pos 1) i (pos 100) (pos 100))
      (eqb_ℤ (pos 100) (pos 0) || eqb_ℤ (pos 100) (pos 0))
      true
      (of_lang imgs "en")
      (get_max_matched_img whole_floats (λ i n. false) imgs "en" (pos 100) (pos 100) (pos 1) true)
get_max_matched_img-IsLargest_example =
    get_max_matched_img-IsLargest whole_floats (λ i n. false) imgs "en" (pos 100) (pos 100) (pos 1)
      true

abbrev video : ℕ → ℕ → String → Video
video w h url = record { id = "v"; old_id = ""; w = pos w; h = pos h; url = url }

abbrev videos : List Video
videos = video 1 2 "" ∷ video 2 1 "wide" ∷ video 1 2 "tall" ∷ []

try_videos-IsBest_example : IsBest 2 videos (try_videos 2 none videos)
try_videos-IsBest_example = try_videos-IsBest 2 videos

get_rand_matched_img-IsMatch_example :
    IsMatch
      (λ i. rule_match whole_floats (pos 1) i (pos 200) (pos 200))
      (eqb_ℤ (pos 200) (pos 0) || eqb_ℤ (pos 200) (pos 0))
      (under "en" imgs)
      (get_rand_matched_img whole_floats 5 imgs "en" (pos 200) (pos 200) (pos 1))
get_rand_matched_img-IsMatch_example =
    get_rand_matched_img-IsMatch whole_floats 5 imgs "en" (pos 200) (pos 200) (pos 1)
