-- ===== src/Pacing/Tests.antt =====
-- A concrete map that forgets.
use real_api_server.Prelude.{◌≡◌, refl, String, none, some, arith, ◌==◌, string_eq, if◌then◌else◌}
use real_api_server.Prelude.Int.{pos, ◌+ℤ◌, ltb_ℤ}
use real_api_server.Pacing.{PacingController, minute, add, threshold, over_cap}
use real_api_server.Samples.Pacing.{forgetful}
use real_api_server.Pacing.Count.{over_cap-add}

abbrev start : PacingController forgetful
start = record { m = λ k t. none; pacing = pos 2; n_instances = 1 }

abbrev clicked_offer : String
clicked_offer = "a"

over_cap-add_example :
    ((add forgetful "a" 600 (pos 3) start).0
      ≡ elim (start.m ("a", minute forgetful 600) 600) [ none ↦ pos 3 | some n ↦ pos 3 +ℤ n ])
    × (over_cap forgetful "a" "US" (pos 5) 610 (add forgetful "a" 600 (pos 3) start).1 ≡ (
        if clicked_offer == "a"
        then ltb_ℤ (threshold forgetful "US" (pos 5) start) (add forgetful "a" 600 (pos 3) start).0
        else over_cap forgetful "a" "US" (pos 5) 610 start))
over_cap-add_example =
    over_cap-add forgetful clicked_offer "a" "US" (pos 5) (pos 3) 600 610 start (omega arith) refl
