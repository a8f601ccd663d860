-- ===== src/Ssp/Tests.antt =====
-- A concrete store of slots.
use real_api_server.Prelude.{
  ◌≡◌, refl, some, [], ◌∷◌, arith, String, Bool, inl, inr, subst, Bool-cases, ◌==◌, string_eq,
}
use real_api_server.Prelude.Int.{ℤ, pos}
use real_api_server.Prelude.Dict.{Dict, lookup}
use real_api_server.Ssp.{SlotInfo, AppInfo, is_active_video_slot, get_video_slot}
use real_api_server.Prelude.{Option, ◌==◌, nat_eq}
use real_api_server.Ssp.Manager.{gen_manager}
use real_api_server.Ssp.Manager.Templates.{IsSound, gen_manager-IsSound}
use real_api_server.Ssp.Brothers.{gen_brothers}
use real_api_server.Ssp.Brothers.Laws.{Others, IsFamily, gen_brothers-IsFamily}
use real_api_server.Samples.{slot}

abbrev slots : Dict (SlotInfo ℤ)
slots = ("77", slot "77") ∷ ("78", slot "78") ∷ []

abbrev app : AppInfo
app = record { pre_num = pos 3; app_switch = 2; slots = "77" ∷ "78" ∷ [] }

slot_77 : lookup "77" slots ≡ some (slot "77")
unfolding lookup
slot_77 = refl

-- the app of every slot
abbrev apps_of : ℤ → Option AppInfo
apps_of n = some app

found_77 : get_video_slot slots "77" ≡ some (slot "77")
unfolding get_video_slot lookup is_active_video_slot
found_77 = refl

gen_manager-IsSound_example : IsSound (gen_manager (λ h. h) ("77" ∷ "78" ∷ []) slots).1
gen_manager-IsSound_example = gen_manager-IsSound (λ h. h) ("77" ∷ "78" ∷ []) slots

abbrev offline : String → Bool
offline id = id == "79"

abbrev alone : SlotInfo ℤ
alone = record (slot "77") { brothers = [] }

abbrev no_slots : Dict (SlotInfo ℤ)
no_slots = ("77", alone) ∷ []

no_slots-IsFamily : IsFamily offline no_slots
unfolding lookup
no_slots-IsFamily id s h = elim (Bool-cases ("77" == id)) [
  | inl e ↦
      let q : alone ≡ s = ground (arith, e, h) in
      subst (λ (r : SlotInfo ℤ). Others offline id r.brothers) q tt
  | inr e ↦ absurd (ground (arith, e, h))
]

gen_brothers-IsFamily_example :
    IsFamily offline (gen_brothers offline (λ n. some app) (app ∷ []) no_slots)
gen_brothers-IsFamily_example =
    gen_brothers-IsFamily offline (λ n. some app) (app ∷ []) no_slots no_slots-IsFamily
