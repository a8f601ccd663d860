-- ===== src/Subscription/Channels.antt =====
-- The dividers of subscription/subscription.go and what GetMoreSubJs calls with them.
use real_api_server.Prelude.{◌≡◌, String, some, List, [], ◌∷◌, nat_eq, string_eq}
use real_api_server.Prelude.Dict.{Dict, lookup}
use real_api_server.Prelude.Float.{Float64}
use real_api_server.Subscription.{JsFunc, func_of, Traffic}

-- Every function is that of the network whose name is the label beside it.
abbrev pub Matching : List JsFunc → List String → Type 0
Matching [] [] = Unit
Matching [] (l ∷ ls) = ⊥
Matching (f ∷ fs) [] = ⊥
Matching (f ∷ fs) (l ∷ ls) = (func_of l ≡ some f) × Matching fs ls

module _ (fl : Float64) where
  -- The functions match their labels.
  abbrev pub IsMatched : Traffic fl → Type 0
  IsMatched t = Matching t.obj_list t.label_list

  abbrev pub AllMatched : Dict (Traffic fl) → Type 0
  AllMatched m = (c : String) (t : Traffic fl) → lookup c m ≡ some t → IsMatched t
