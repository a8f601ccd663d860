-- ===== src/Ssp/Manager.antt =====
-- ssp/v3_ssp_info.go: the configuration of the slots of one app. `base64` is util.Base64Encode.
pub mod Templates
use real_api_server.Prelude.{
  ℕ, ◌+◌, String, Bool, true, false, not, ◌&&◌, ◌||◌, Option, none, some, List, [], ◌∷◌, ◌++◌,
  length, ◌==◌, nat_eq, string_eq, ltb, if◌then◌else◌,
}
use real_api_server.Prelude.Int.{ℤ, pos, minus_one}
use real_api_server.Prelude.Dict.{Dict, lookup, insert}
use real_api_server.Ssp.{SlotInfo, Template, VideoIntegrationObj}

pub record AppSlot : Type 0 where
  pub id : String
  pub fb_id : String
  pub admob_id : String
  pub active : ℕ
  pub format : ℕ
  pub tpl_id : ℕ

pub record AppTpl : Type 0 where
  pub id : ℕ
  pub tpl : String

pub record RewardedVideoItem : Type 0 where
  pub v_orient : ℤ
  pub load_time : ℤ
  pub click_time : ℤ
  pub is_mute : ℤ
  pub is_inner : ℤ
  pub button_color : String
  pub pp_url : String
  pub name : String
  pub value : String
  pub slot : String

pub record ViToken : Type 0 where
  pub app_name : String
  pub app_id : String
  pub placements : List String

pub record ViSlot : Type 0 where
  pub id : String
  pub priority : Dict ℤ
  pub max_play : Dict ℤ
  pub placements : Dict String

pub record VideoIntegration : Type 0 where
  pub tokens : List ViToken
  pub slots : List ViSlot
  pub app_id_helper : Dict String
  pub app_placement_helper : Dict (List String)

pub record AppSlotManager : Type 0 where
  pub slots : List AppSlot
  pub tpls : List AppTpl
  pub rewarded_videos : List RewardedVideoItem
  pub video_integration : Option VideoIntegration
  pub tpl_map : Dict ℕ
  pub tpl_idx : ℕ

abbrev pub new_app_slot_manager : AppSlotManager
new_app_slot_manager = record {
  slots = [];
  tpls = [];
  rewarded_videos = [];
  video_integration = none;
  tpl_map = [];
  tpl_idx = 0;
}

-- a number that is missing in a map is 0
abbrev pub num_or_zero : Option ℕ → ℕ
num_or_zero none = 0
num_or_zero (some n) = n

-- the number of the first template, which is added if it is new
pub add_first : (String → String) → List Template → AppSlotManager → ℕ × AppSlotManager
unfolding insert lookup
add_first base64 [] manager = (0, manager)
add_first base64 (t ∷ ts) manager =
    let tpl_id = num_or_zero (lookup t.sign manager.tpl_map) in
    let next = manager.tpl_idx + 1 in
    if tpl_id == 0
    then (
      next,
      record manager {
        tpl_idx = next;
        tpls = manager.tpls ++ record { id = next; tpl = base64 t.h5 } ∷ [];
        tpl_map = insert t.sign next manager.tpl_map;
      },
    )
    else (tpl_id, manager)

module _ {F : Type 0} where
  -- the block that adds the template of the slot: its id and the manager
  pub add_tpl : (String → String) → SlotInfo F → AppSlotManager → ℕ × AppSlotManager
  unfolding add_first
  add_tpl base64 slot manager =
      if not (slot.fb_id == "") || not (slot.admob_id == "")
      then add_first base64 slot.templates manager
      else (0, manager)

  pub app_slot : SlotInfo F → ℕ → AppSlot
  app_slot slot tpl_id = record {
    id = slot.id_str;
    fb_id = slot.fb_id;
    admob_id = slot.admob_id;
    active = if slot.slot_switch == 1 && slot.pre_click == 2 then 3 else slot.slot_switch;
    format = slot.format;
    tpl_id = tpl_id;
  }

  -- the block that adds the rewarded video: the slot, which gets a currency, and the manager
  pub add_rewarded : SlotInfo F → AppSlotManager → SlotInfo F × AppSlotManager
  add_rewarded slot manager =
      let paid =
        if slot.rewarded_currency == "" then record slot { rewarded_currency = "COIN" } else slot in
      let item : RewardedVideoItem = record {
        v_orient = paid.video_screen_type;
        load_time = paid.load_time;
        click_time = paid.click_time;
        is_mute = pos 1;
        is_inner = paid.is_inner;
        button_color = paid.button_color;
        pp_url = "http://en.yeahmobi.com/privacy-policy/";
        name = paid.rewarded_currency;
        value = paid.rewarded_amount;
        slot = paid.id_str;
      } in
      if slot.rewarded_amount == ""
      then (slot, manager)
      else (paid, record manager { rewarded_videos = manager.rewarded_videos ++ item ∷ [] })

-- placements that are missing in a map are none
abbrev pub list_or_nil : Option (List String) → List String
list_or_nil none = []
list_or_nil (some l) = l

-- the loop over slot.VideoIntegration
pub integrate : List VideoIntegrationObj → ViSlot → VideoIntegration → ViSlot × VideoIntegration
unfolding insert lookup
integrate [] vi_slot vi = (vi_slot, vi)
integrate (viobj ∷ objs) vi_slot vi =
    let vi_slot' = record vi_slot {
      max_play = insert viobj.type_name (pos 3) vi_slot.max_play;
      placements = insert viobj.type_name viobj.api_placement_id vi_slot.placements;
    } in
    let old = list_or_nil (lookup viobj.type_name vi.app_placement_helper) in
    let vi' = record vi {
      app_id_helper = insert viobj.type_name viobj.api_app_id vi.app_id_helper;
      app_placement_helper =
          insert viobj.type_name (old ++ viobj.api_placement_id ∷ []) vi.app_placement_helper;
    } in
    let (s, v) = if viobj.status == 1 then (vi_slot', vi') else (vi_slot, vi) in integrate objs s v

abbrev empty_integration : VideoIntegration
empty_integration = record {
  tokens = [];
  slots = [];
  app_id_helper = [];
  app_placement_helper = [];
}

-- manager.VideoIntegration, made if it is nil
abbrev integration_of : Option VideoIntegration → VideoIntegration
integration_of none = empty_integration
integration_of (some vi) = vi

module _ {F : Type 0} where
  -- the block that adds the video integration
  pub add_integration : SlotInfo F → AppSlotManager → AppSlotManager
  unfolding integrate insert
  add_integration slot manager =
      let start : ViSlot = record {
        id = slot.id_str;
        priority = slot.video_sort;
        max_play = [];
        placements = [];
      } in
      let (vi_slot, vi) =
        integrate slot.video_integration start (integration_of manager.video_integration) in
      let done = record vi_slot { max_play = insert "cloudmobi" minus_one vi_slot.max_play } in
      if ltb 0 (length slot.video_integration) || ltb 0 (length manager.rewarded_videos)
      then record manager { video_integration = some (record vi { slots = vi.slots ++ done ∷ [] }) }
      else manager

  -- AddSlot: the slot and the manager after it
  pub add_slot : (String → String) → SlotInfo F → AppSlotManager → SlotInfo F × AppSlotManager
  unfolding add_tpl app_slot add_rewarded add_integration
  add_slot base64 slot manager =
      let (tpl_id, m) = add_tpl base64 slot manager in
      let listed = record m { slots = m.slots ++ app_slot slot tpl_id ∷ [] } in
      let (slot', rewarded) = add_rewarded slot listed in
      if not (slot.slot_switch == 1)
      then (slot, manager)
      else if not (slot.format == 6) && not (slot.format == 7)
      then (slot, listed)
      else (slot', add_integration slot' rewarded)

-- genToken, in the order in which the map is walked
pub tokens_of : Dict String → Dict (List String) → List ViToken
unfolding lookup
tokens_of [] placements = []
tokens_of ((name, id) ∷ ids) placements =
    record { app_name = name; app_id = id; placements = list_or_nil (lookup name placements) }
    ∷ tokens_of ids placements

pub gen_token : AppSlotManager → AppSlotManager
unfolding tokens_of
gen_token manager = elim manager.video_integration [
  | none ↦ manager
  | some vi ↦ record manager {
    video_integration =
        some
          (record vi { tokens = vi.tokens ++ tokens_of vi.app_id_helper vi.app_placement_helper });
  }
]

module _ {F : Type 0} where
  -- the loop of GenAuxiliaryGlobalConf over the slots of one app; AddSlot writes to the slot of the
  -- store
  pub add_slots :
      (String → String)
      → List String
      → Dict (SlotInfo F)
      → AppSlotManager
      → Dict (SlotInfo F) × AppSlotManager
  unfolding lookup insert add_slot
  add_slots base64 [] store manager = (store, manager)
  add_slots base64 (id ∷ ids) store manager = elim (lookup id store) [
    | none ↦ add_slots base64 ids store manager
    | some slot ↦
        let (slot', m) = add_slot base64 slot manager in
        add_slots base64 ids (insert id slot' store) m
  ]

  -- the manager of one app
  pub gen_manager :
      (String → String) → List String → Dict (SlotInfo F) → Dict (SlotInfo F) × AppSlotManager
  unfolding add_slots gen_token
  gen_manager base64 ids store =
      let (store', m) = add_slots base64 ids store new_app_slot_manager in (store', gen_token m)
