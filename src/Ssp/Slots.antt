-- ===== src/Ssp/Slots.antt =====
-- ssp/ssp_info.go: the small tests of the slots, and what the store does to a slot that it gets.
-- `contains` is strings.Contains, `split` strings.Split, `lower` strings.ToLower.
use real_api_server.Prelude.{
  ℕ, String, Bool, true, false, not, ◌&&◌, ◌||◌, Option, none, some, List, [], ◌∷◌, ◌==◌, nat_eq,
  string_eq, if◌then◌else◌,
}
use real_api_server.Prelude.Int.{ℤ, pos}
use real_api_server.Prelude.Dict.{Dict, lookup, insert}
use real_api_server.Prelude.Run.{Run, ok, panic}
use real_api_server.Ssp.{SlotInfo, AppInfo}

-- the inner loop of AppCategoryInBlackList
pub any_contained : (String → String → Bool) → String → List String → Bool
any_contained contains elem [] = false
any_contained contains elem (cat ∷ cats) =
    if contains elem cat then true else any_contained contains elem cats

pub in_black_list : (String → String → Bool) → List String → List String → Bool
unfolding any_contained
in_black_list contains [] cats = false
in_black_list contains (elem ∷ filter) cats =
    if any_contained contains elem cats then true else in_black_list contains filter cats

-- list[0] and list[len(list)-1] of a list with more than one element, else `default`
abbrev first_of : String → List String → String
first_of default [] = default
first_of default (a ∷ []) = default
first_of default (a ∷ b ∷ rest) = a

abbrev end_of : String → List String → String
end_of default [] = default
end_of default (a ∷ []) = a
end_of default (a ∷ b ∷ rest) = end_of default (b ∷ rest)

abbrev last_of : String → List String → String
last_of default [] = default
last_of default (a ∷ []) = default
last_of default (a ∷ b ∷ rest) = end_of default (b ∷ rest)

-- one round of the first loop of setWithoutLock, for a category such as `Game-Casino*`
pub ssp_category : (String → String → List String) → (String → String) → String → String
ssp_category split lower elem =
    let tail = last_of elem (split elem "-") in lower (first_of tail (split tail "*"))

-- the map that Update makes of a list: none of an empty list
pub fill_map : List String → Dict Bool → Dict Bool
unfolding insert
fill_map [] m = m
fill_map (k ∷ ks) m = fill_map ks (insert k true m)

pub map_of : Option (Dict Bool) → List String → Option (Dict Bool)
unfolding fill_map
map_of old [] = old
map_of old (k ∷ ks) = some (fill_map (k ∷ ks) [])

-- the slots that GetTbkInfo gives the token to in any case
abbrev token_slots : List String
token_slots =
    "1361" ∷ "1794" ∷ "23696844" ∷ "2507" ∷ "25261535" ∷ "30133956" ∷ "3447" ∷ "52310240"
    ∷ "62724276" ∷ "70555291" ∷ "75166069" ∷ "1525" ∷ []

abbrev one_of : String → List String → Bool
one_of k [] = false
one_of k (j ∷ js) = k == j || one_of k js

module _ {F : Type 0} where
  pub app_category_in_black_list : (String → String → Bool) → SlotInfo F → List String → Bool
  unfolding in_black_list
  app_category_in_black_list contains slot cats = in_black_list contains slot.black_list_filter cats

  -- the maps of Update
  pub with_maps : SlotInfo F → SlotInfo F
  unfolding map_of
  with_maps info = record info {
    ad_network_black_map = map_of info.ad_network_black_map info.ad_network_black_list;
    ad_network_white_map = map_of info.ad_network_white_map info.ad_network_white_list;
    offer_black_map = map_of info.offer_black_map info.offer_black_list;
    pkg_black_map = map_of info.pkg_black_map info.pkg_black_list;
  }

  pub match_ssp_format : SlotInfo F → ℕ → Bool
  match_ssp_format slot format = slot.format == format

  -- GetPreNum: the number and the slot, which keeps it. A slot whose app is missing is a panic.
  pub get_pre_num : Option (ℤ → Option AppInfo) → SlotInfo F → Run (ℤ × SlotInfo F)
  get_pre_num none slot = ok (pos 0, slot)
  get_pre_num (some apps) slot =
      if slot.pre_num_inited then ok (slot.pre_num, slot) else elim (apps slot.app_id) [
        | none ↦ panic
        | some app ↦ ok (app.pre_num, record slot { pre_num = app.pre_num; pre_num_inited = true })
      ]

  pub is_video_cache : List (SlotInfo F) → Bool
  is_video_cache [] = false
  is_video_cache (slot ∷ slots) =
      if not (slot.slot_switch == 2) && slot.format == 7 then true else is_video_cache slots

  -- the store is `none` before it is loaded
  pub is_video_slot : Option (Dict (SlotInfo F)) → String → Bool
  unfolding lookup
  is_video_slot none slot_id = false
  is_video_slot (some slots) slot_id = elim (lookup slot_id slots) [
    | none ↦ false
    | some slot ↦ slot.format == 6 || (slot.format == 7 || slot.format == 8)
  ]

  pub get_subscription_info : Option (Dict (SlotInfo F)) → String → Bool × List String
  unfolding lookup
  get_subscription_info none slot_id = (false, [])
  get_subscription_info (some slots) slot_id = elim (lookup slot_id slots) [
    | none ↦ (false, [])
    | some slot ↦ (slot.subscription_switch == 1, slot.subscription_sdks)
  ]

  pub get_tbk_info : String → Dict (SlotInfo F) → String → String
  unfolding lookup
  get_tbk_info token store slot_id = elim (lookup slot_id store) [
    | none ↦ ""
    | some slot ↦
        if one_of slot_id token_slots
        then token
        else if not (slot.tb_status == 1)
        then ""
        else token
  ]
