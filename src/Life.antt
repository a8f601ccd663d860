-- ===== src/Life.antt =====
-- tpl/life.go: which slots of an app a client has to update. `atoi` is strconv.Atoi, `none` an error; a
-- store or an app that is nil is `none`.
pub mod Updates
mod Tests
use real_api_server.Prelude.{
  ℕ, String, Bool, true, false, not, Option, none, some, List, [], ◌∷◌, ◌==◌, string_eq,
  if◌then◌else◌,
}
use real_api_server.Prelude.Int.{ℤ, pos, ltb_ℤ}
use real_api_server.Prelude.Dict.{Dict, lookup}
use real_api_server.Ssp.{SlotInfo, AppInfo}

pub record LifeSlot : Type 0 where
  pub id : String
  pub active : ℕ
  pub format : ℕ

pub record LifeResp : Type 0 where
  pub status : ℕ
  pub update : ℤ
  pub err_msg : String
  pub slots : List LifeSlot

-- newLifeResp, whose services are always the same
abbrev pub new_life_resp : ℕ → ℤ → String → LifeResp
new_life_resp status update err = record {
  status = status;
  update = update;
  err_msg = err;
  slots = [];
}

-- the parameters that lifeHandler uses
pub record LifeForm : Type 0 where
  pub appid : String
  pub update_time : String

-- newLifeCtx: the number of the app and the time of the client, or the message of the error
pub data Parsed : Type 0 where
  refused : String → Parsed
  parsed : ℤ → ℤ → Parsed

pub new_life_ctx : (String → Option ℤ) → LifeForm → Parsed
new_life_ctx atoi form =
    if form.appid == "" then refused "[LIFE] appid required" else elim (atoi form.appid) [
      | none ↦ refused "[LIFE] appid error"
      | some app_id ↦ elim (atoi form.update_time) [
        | none ↦ refused "[LIFE] update time: interger required"
        | some ts ↦ parsed app_id ts
      ]
    ]

module _ {F : Type 0} where
  abbrev pub life_slot : SlotInfo F → LifeSlot
  life_slot slot = record { id = slot.id_str; active = slot.slot_switch; format = slot.format }

  -- the loop of getShouldUpdateSlots, with newUpdateTs and shouldUpdate
  pub update_loop : ℤ → List (SlotInfo F) → ℤ → Bool → List LifeSlot × ℤ × Bool
  update_loop ts [] new should = ([], new, should)
  update_loop ts (slot ∷ slots) new should =
      let (rest, new', should') =
        update_loop ts slots (if ltb_ℤ new slot.update_time then slot.update_time else new)
          (if ltb_ℤ ts slot.update_time then true else should) in
      (life_slot slot ∷ rest, new', should')

  pub get_should_update_slots : ℤ → List (SlotInfo F) → List LifeSlot × ℤ × Bool
  unfolding update_loop
  get_should_update_slots ts slots = update_loop ts slots (pos 0) false

  -- app.GetAllSlots: the slots of the app that the store has
  pub known_slots : Dict (SlotInfo F) → List String → List (SlotInfo F)
  unfolding lookup
  known_slots store [] = []
  known_slots store (id ∷ ids) = elim (lookup id store) [
    | none ↦ known_slots store ids
    | some slot ↦ slot ∷ known_slots store ids
  ]

  -- the answer for an app, `none` of the store is the error of GetAllSlots
  pub life_answer : Option (Dict (SlotInfo F)) → ℤ → AppInfo → LifeResp
  unfolding known_slots get_should_update_slots
  life_answer none ts app = new_life_resp 4 (pos 0) "no data"
  life_answer (some store) ts app =
      let (slots, new_ts, should) = get_should_update_slots ts (known_slots store app.slots) in
      if not should
      then new_life_resp 3 new_ts ""
      else record (new_life_resp 1 new_ts "") { slots = slots }

  -- lifeHandler; `is_get` tells that the method is GET
  pub life_handler :
      (String → Option ℤ)
      → Option (ℤ → Option AppInfo)
      → Option (Dict (SlotInfo F))
      → Bool
      → LifeForm
      → LifeResp
  unfolding new_life_ctx life_answer
  life_handler atoi apps store is_get form =
      if not is_get
      then new_life_resp 4 (pos 0) "method: GET required"
      else elim (new_life_ctx atoi form) [
        | refused err ↦ new_life_resp 4 (pos 0) err
        | parsed app_id ts ↦ elim apps [
          | none ↦ new_life_resp 4 (pos 0) "no app data"
          | some app_store ↦ elim (app_store app_id) [
            | none ↦ new_life_resp 4 (pos 0) "app error"
            | some app ↦ life_answer store ts app
          ]
        ]
      ]
