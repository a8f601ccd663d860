-- ===== src/RawAd/Target.antt =====
-- AddTarget and addMaterialTarget of raw_ad/raw_ad.go: the conditions of an offer.
pub mod Laws
use real_api_server.Prelude.{
  String, Bool, true, false, not, ◌&&◌, ◌||◌, List, [], ◌∷◌, ◌++◌, ◌==◌, string_eq, if◌then◌else◌,
}

pub record Target : Type 0 where
  pub key : String
  pub belong : Bool
  pub vals : List String

abbrev pub Targets : Type 0
Targets = List Target

abbrev pub same_bool : Bool → Bool → Bool
same_bool true b = b
same_bool false b = not b

-- the loop that looks for a value
unfoldable pub holds : String → List String → Bool
holds value [] = false
holds value (v ∷ vals) = if v == value then true else holds value vals

pub add_value : String → Target → Target
unfolding holds
add_value value t = if holds value t.vals then t else record t { vals = t.vals ++ value ∷ [] }

abbrev pub single : String → String → Bool → Target
single key value belong = record { key = key; belong = belong; vals = value ∷ [] }

-- The loop over the targets: the first with the key decides. A "not in" target gives way to an "in"
-- one, which is appended at the end; an "in" target stays when "not in" is asked for.
pub add_target : String → String → Bool → Targets → Targets
unfolding add_value
add_target key value belong [] = single key value belong ∷ []
add_target key value belong (t ∷ ts) =
    if t.key == key
    then (if same_bool t.belong belong
        then add_value value t ∷ ts
        else if belong
        then ts ++ single key value belong ∷ []
        else t ∷ ts)
    else t ∷ add_target key value belong ts

-- addMaterialTarget, given whether there are pictures and videos
pub add_material_target : Bool → Bool → Targets → Targets
unfolding add_target
add_material_target creatives videos ts =
    if not creatives && not videos
    then ts
    else (let with_img = if creatives then add_target "material" "img" true ts else ts in
        let with_video = if videos then add_target "material" "video" true with_img else with_img in
        add_target "material" "any" true with_video)
