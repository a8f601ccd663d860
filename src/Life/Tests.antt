-- ===== src/Life/Tests.antt =====
-- A concrete app.
use real_api_server.Prelude.{◌≡◌, ◌⊎◌, ◌↔◌, some, [], ◌∷◌, map}
use real_api_server.Prelude.Int.{ℤ, pos}
use real_api_server.Prelude.Dict.{Dict}
use real_api_server.Ssp.{SlotInfo, AppInfo}
use real_api_server.Life.{life_slot, known_slots, life_answer}
use real_api_server.Life.Updates.{Newer, IsLatest, life_answer-IsLatest}
use real_api_server.Samples.{slot}

abbrev store : Dict (SlotInfo ℤ)
store = ("77", slot "77") ∷ []

abbrev app : AppInfo
app = record { pre_num = pos 3; app_switch = 1; slots = "77" ∷ "78" ∷ [] }

life_answer-IsLatest_example :
    (((life_answer (some store) (pos 400) app).status ≡ 1)
      ↔ Newer (pos 400) (known_slots store app.slots))
    × ((((life_answer (some store) (pos 400) app).status ≡ 1)
          × ((life_answer (some store) (pos 400) app).slots
              ≡ map life_slot (known_slots store app.slots)))
        ⊎ (((life_answer (some store) (pos 400) app).status ≡ 3)
            × ((life_answer (some store) (pos 400) app).slots ≡ [])))
    × IsLatest (pos 0) (known_slots store app.slots) (life_answer (some store) (pos 400) app).update
life_answer-IsLatest_example = life_answer-IsLatest store (pos 400) app
