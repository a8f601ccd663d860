-- ===== src/Ssp.antt =====
-- ssp/ssp_info.go: the slots of the publishers, their limits, and the slots that share an app.
-- The store maps an id to the slot it points to, so a write through a pointer changes the store.
pub mod App
pub mod Manager
pub mod Brothers
pub mod Slots
mod Tests
use real_api_server.Prelude.{
  is_some, ℕ, String, Bool, true, false, not, ◌&&◌, ◌||◌, Option, none, some, List, [], ◌∷◌, ◌==◌,
  nat_eq, string_eq, if◌then◌else◌,
}
use real_api_server.Prelude.Int.{ℤ, pos, minus_one, eqb_ℤ}
use real_api_server.Prelude.Dict.{Dict, lookup, insert}
use real_api_server.Prelude.Float.{Float64}

pub record Template : Type 0 where
  pub h5 : String
  pub sign : String
  pub width : ℤ
  pub height : ℤ

pub record VideoIntegrationObj : Type 0 where
  pub type_name : String
  pub status : ℕ
  pub api_app_id : String
  pub api_placement_id : String

pub record SlotInfo (F : Type 0) : Type 0 where
  pub id_str : String
  pub app_id : ℤ
  pub format : ℕ
  pub templates : List Template
  pub slot_switch : ℕ
  pub impression_rate : F
  pub white_list_filter : List String
  pub pkg_black_map : Option (Dict Bool)
  pub ad_network_black_map : Option (Dict Bool)
  pub ad_network_white_map : Option (Dict Bool)
  pub offer_black_map : Option (Dict Bool)
  pub max_impression : ℤ
  pub max_complete : ℤ
  pub video_freq_cap : ℤ
  pub ad_cache_num : ℤ
  pub slot_imp_num : ℤ
  pub black_list_filter : List String
  pub fb_id : String
  pub admob_id : String
  pub pre_click : ℕ
  pub rewarded_currency : String
  pub rewarded_amount : String
  pub video_screen_type : ℤ
  pub click_time : ℤ
  pub is_inner : ℤ
  pub load_time : ℤ
  pub button_color : String
  pub video_sort : Dict ℤ
  pub video_integration : List VideoIntegrationObj
  pub subscription_switch : ℕ
  pub subscription_sdks : List String
  pub tb_status : ℕ
  pub update_time : ℤ
  pub pre_num : ℤ
  pub pre_num_inited : Bool
  pub ad_network_black_list : List String
  pub ad_network_white_list : List String
  pub offer_black_list : List String
  pub pkg_black_list : List String
  -- the ids of the slots that `brothers` points to
  pub brothers : List String

pub record AppInfo : Type 0 where
  pub pre_num : ℤ
  pub app_switch : ℕ
  pub slots : List String

-- InWhiteList
unfoldable pub in_white_list : List String → String → Bool
in_white_list [] cat = false
in_white_list (c ∷ filter) cat = if c == cat then true else in_white_list filter cat

module _ (fl : Float64) where
  -- SlotImpInCap; `coin` is the draw of rand.Float64()
  unfoldable pub slot_imp_in_cap : fl.F → SlotInfo fl.F → ℤ → Bool
  slot_imp_in_cap coin slot limit =
      let ratio = fl.div (fl.of_int slot.slot_imp_num) (fl.of_int limit) in
      if eqb_ℤ limit minus_one
      then true
      else if eqb_ℤ limit (pos 0)
      then false
      else if eqb_ℤ slot.slot_imp_num (pos 0)
      then true
      else if fl.less (fl.literal 1 1) ratio
      then false
      else if fl.less (fl.literal 4 5) ratio
      then fl.less coin (fl.literal 1 5)
      else true

module _ {F : Type 0} where
  -- isActiveVideoSlot
  unfoldable pub is_active_video_slot : SlotInfo F → Bool
  is_active_video_slot info =
      not (info.slot_switch == 2) && (info.format == 6 || (info.format == 7 || info.format == 8))

  -- the loop over the brothers
  pub active_brother : Dict (SlotInfo F) → List String → Option (SlotInfo F)
  unfolding is_active_video_slot
  active_brother store [] = none
  active_brother store (b ∷ bs) =
      let rest = active_brother store bs in
      elim (lookup b store) [
        | none ↦ rest
        | some info ↦ if is_active_video_slot info then some info else rest
      ]

  pub get_video_slot : Dict (SlotInfo F) → String → Option (SlotInfo F)
  unfolding is_active_video_slot active_brother
  get_video_slot store some_slot_id = elim (lookup some_slot_id store) [
    | none ↦ none
    | some some_info ↦
        if is_active_video_slot some_info
        then some some_info
        else active_brother store some_info.brothers
  ]

  -- the loop over app.Slots: the store, where the slot of `id` is written, not the one visited, and
  -- the ids of the slots that are appended
  pub other_slots :
      Bool → String → SlotInfo F → List String → Dict (SlotInfo F) → Dict (SlotInfo F) × List String
  other_slots off id slot [] store = (store, [])
  other_slots off id slot (s ∷ ss) store =
      let known = not (s == slot.id_str) && is_some (lookup s store) in
      let store' =
        if known && off then insert id (record slot { slot_switch = 2 }) store else store in
      let rest = other_slots off id slot ss store' in (rest.0, if known then s ∷ rest.1 else rest.1)

  -- GetAllSlotInApp: the store after it, and the ids of the slots, or `none` for an error
  pub get_all_slot_in_app :
      Option (ℤ → Option AppInfo)
      → Dict (SlotInfo F)
      → String
      → Dict (SlotInfo F) × Option (List String)
  unfolding other_slots
  get_all_slot_in_app none store id = (store, none)
  get_all_slot_in_app (some apps) store id = elim (lookup id store) [
    | none ↦ (store, none)
    | some slot ↦ elim (apps slot.app_id) [
      | none ↦ (store, none)
      | some app ↦
          let off = not (app.app_switch == 1) in
          let rest =
            other_slots off id slot app.slots
              (if off then insert id (record slot { slot_switch = 2 }) store else store) in
          (rest.0, some (id ∷ rest.1))
    ]
  ]
