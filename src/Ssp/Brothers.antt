-- ===== src/Ssp/Brothers.antt =====
-- ssp/ssp_info.go: the slots of an app as the brothers of one another. `offline` is the table
-- offlineSlots. The store has every slot under its IdStr, as setWithoutLock puts it.
pub mod Laws
use real_api_server.Prelude.{
  ℕ, zero, suc, String, Bool, true, false, not, ◌&&◌, ◌||◌, Option, none, some, List, [], ◌∷◌, ◌++◌,
  length, get_elem?, ◌==◌, nat_eq, string_eq, leb, if◌then◌else◌,
}
use real_api_server.Prelude.Dict.{Dict, lookup, insert}
use real_api_server.Prelude.Int.{ℤ, pos}
use real_api_server.Ssp.{SlotInfo, AppInfo, get_all_slot_in_app}

-- the inner loop: the slots that are appended to the brothers of the slot `own`
pub others_of : (String → Bool) → String → List String → List String
others_of offline own [] = []
others_of offline own (s ∷ slots) =
    let rest = others_of offline own slots in
    if not (s == own) && not (offline s) then s ∷ rest else rest

module _ {F : Type 0} where
  -- append to slot.brothers, through the pointer
  pub append_brothers : String → List String → Dict (SlotInfo F) → Dict (SlotInfo F)
  unfolding lookup insert
  append_brothers id more store = elim (lookup id store) [
    | none ↦ store
    | some slot ↦ insert id (record slot { brothers = slot.brothers ++ more }) store
  ]

  -- the loop over the slots of one app
  pub link : (String → Bool) → List String → List String → Dict (SlotInfo F) → Dict (SlotInfo F)
  unfolding others_of append_brothers
  link offline all [] store = store
  link offline all (id ∷ ids) store =
      link offline all ids
        (if offline id then store else append_brothers id (others_of offline id all) store)

  -- the body of the outer loop, for the slots of one app
  pub link_app :
      (String → Bool) → (ℤ → Option AppInfo) → List String → Dict (SlotInfo F) → Dict (SlotInfo F)
  unfolding link get_all_slot_in_app
  link_app offline apps [] store = store
  link_app offline apps (start ∷ ss) store =
      let found = get_all_slot_in_app (some apps) store start in
      elim found.1 [ none ↦ found.0 | some slots ↦ link offline slots slots found.0 ]

  -- the outer loop, over the apps in the order in which the map is walked
  pub gen_brothers :
      (String → Bool) → (ℤ → Option AppInfo) → List AppInfo → Dict (SlotInfo F) → Dict (SlotInfo F)
  unfolding link_app
  gen_brothers offline apps [] store = store
  gen_brothers offline apps (app ∷ more) store =
      gen_brothers offline apps more (link_app offline apps app.slots store)

  -- the loop of GetRandomBrother; `draw i` is the number of rand.Intn in the round `i`. A brother
  -- that is not in the store is `none`, a nil pointer, where Go panics.
  pub try_brothers : (ℕ → ℕ) → Dict (SlotInfo F) → SlotInfo F → ℕ → Option (SlotInfo F)
  unfolding lookup
  try_brothers draw store slot zero = some slot
  try_brothers draw store slot (suc left) =
      let rest = try_brothers draw store slot left in
      let sel : Option (SlotInfo F) =
        if draw left == length slot.brothers
        then some slot
        else elim (get_elem? slot.brothers (draw left)) [ none ↦ none | some b ↦ lookup b store ] in
      elim sel [ none ↦ none | some s ↦ if s.slot_switch == 2 then rest else some s ]

  pub get_random_brother : (ℕ → ℕ) → Dict (SlotInfo F) → SlotInfo F → ℤ → Option (SlotInfo F)
  unfolding try_brothers
  get_random_brother draw store slot (pos retry) =
      if leb (length slot.brothers) 1 then some slot else try_brothers draw store slot retry
  get_random_brother draw store slot retry = some slot
