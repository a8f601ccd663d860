-- ===== src/Set/Tests.antt =====
-- A concrete set.
use real_api_server.Prelude.{◌≡◌, List, [], ◌∷◌}
use real_api_server.Set.{has}
use real_api_server.Set.Laws.{Op, add_key, del_key, run, holds, has-run}

abbrev ops : List Op
ops = del_key "a" ∷ add_key "b" ∷ add_key "a" ∷ []

has-run_example : has "b" (run ops) ≡ holds ops "b"
has-run_example = has-run ops "b"
