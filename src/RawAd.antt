-- ===== src/RawAd.antt =====
-- raw_ad/raw_ad.go: the offers, their targets and their pictures. An offer's float fields are of the
-- type `F`, and its maps used as sets are lists of keys.
pub mod Image
pub mod Target
pub mod Videos
pub mod Media
pub mod Click
mod Tests
use real_api_server.Prelude.{
  ℕ, String, Bool, true, false, not, ◌&&◌, ◌||◌, Option, none, some, List, [], ◌∷◌, ◌==◌, string_eq,
  if◌then◌else◌,
}
use real_api_server.Prelude.Int.{ℤ}
use real_api_server.Prelude.Dict.{Dict}
use real_api_server.RawAd.Image.{Img}
use real_api_server.RawAd.Target.{Targets}
use real_api_server.RawAd.Videos.{Video}

pub record RawAd (F : Type 0) : Type 0 where
  pub id : String
  pub channel : String
  pub uniq_id : String
  pub payout : F
  pub payout_type : String
  pub platform : String
  pub product_category : String
  pub app_category : List String
  pub pkg_name : String
  pub title_lc : String
  pub desc_lc : String
  pub icons : Dict (List Img)
  pub creatives : Dict (List Img)
  -- RenderImgs: the sizes, as strconv.Atoi reads them, with the urls
  pub render_imgs : List (ℕ × String)
  pub videos : Dict (List Video)
  pub image_chosen : Option Img
  pub video_chosen : Option Video
  -- 2 turns the pre-click of the package off
  pub pkg_pre_click_enable : ℕ
  pub fuyu_enabled : Bool
  pub js_tag_enabled : Bool
  pub wugan_enabled : Bool
  pub targets : Targets
  pub channel_type : List String
  pub offer_target_slot : List String
  pub carrier : List String
  pub pre_rate : F
  pub traffic_rate : F
  pub pacing : ℤ
  pub ct_bloom_index : List ℕ
  pub is_t : Bool
  pub attach_args : List String
  pub file_size : ℤ
  pub track_link : String

-- `_, ok := m[key]` of a map used as a set
unfoldable pub has_key : String → List String → Bool
has_key k [] = false
has_key k (j ∷ m) = if j == k then true else has_key k m

-- a set that restricts only if it is not empty
unfoldable pub hits : List String → String → Bool
unfolding has_key
hits [] k = true
hits (j ∷ m) k = has_key k (j ∷ m)

-- GetChannelType: the keys that strconv.Atoi reads, in the order of the walk
unfoldable pub get_channel_type : (String → Option ℤ) → List String → List ℤ
get_channel_type atoi [] = []
get_channel_type atoi (t ∷ ts) =
    let rest = get_channel_type atoi ts in elim (atoi t) [ none ↦ rest | some n ↦ n ∷ rest ]

module _ {F : Type 0} where
  unfoldable pub is_hit_carrier : RawAd F → String → Bool
  unfolding hits
  is_hit_carrier raw c = hits raw.carrier c

  unfoldable pub is_hit_slot : RawAd F → String → Bool
  unfolding hits
  is_hit_slot raw slotid = hits raw.offer_target_slot slotid

  pub is_hit_channel_type : RawAd F → String → Bool
  unfolding has_key
  is_hit_channel_type raw t = has_key t raw.channel_type
