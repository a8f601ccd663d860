-- ===== src/Util/Divider.antt =====
-- The divider of util/traffic_divider.go: objects drawn by weight. `search` is
-- sort.SearchFloat64s, `r` a draw of rand.Float64(); `none` of GetObj is an index out of range, where
-- Go panics.
pub mod States
use real_api_server.Prelude.{
  ℕ, String, Bool, true, false, Option, none, some, List, [], ◌∷◌, ◌++◌, map, length, get_elem?,
  ◌-◌, ◌==◌, nat_eq, if◌then◌else◌,
}
use real_api_server.Prelude.Int.{ℤ, pos}
use real_api_server.Prelude.Float.{Float64}

pub data DividerError : Type 0 where
  not_compiled has_compiled no_obj : DividerError

pub data Result (A : Type 0) : Type 0 where
  ok : A → Result A
  err : DividerError → Result A
  panic : Result A

module _ (fl : Float64) (Obj : Type 0) where
  pub record Divider : Type 0 where
    pub sum : fl.F
    pub weight_list : List fl.F
    pub obj_list : List Obj
    pub label_list : List String
    pub compiled : Bool

  abbrev pub new_divider : Divider
  new_divider = record {
    sum = fl.of_int (pos 0);
    weight_list = [];
    obj_list = [];
    label_list = [];
    compiled = false;
  }

  -- div.weightList[length-1], or 0
  unfoldable pub last_weight : List fl.F → fl.F
  last_weight [] = fl.of_int (pos 0)
  last_weight (w ∷ []) = w
  last_weight (w ∷ v ∷ ws) = last_weight (v ∷ ws)

  unfoldable pub add_obj : fl.F → Obj → String → Divider → Result Divider
  unfolding last_weight
  add_obj weight obj label d =
      if d.compiled
      then err has_compiled
      else ok (record d {
        sum = fl.add d.sum weight;
        weight_list = d.weight_list ++ fl.add (last_weight d.weight_list) weight ∷ [];
        obj_list = d.obj_list ++ obj ∷ [];
        label_list = d.label_list ++ label ∷ [];
      })

  unfoldable pub compile : Divider → Result Divider
  compile d =
      if d.compiled
      then err has_compiled
      else if length d.weight_list == 0
      then err no_obj
      else ok (record d { weight_list = map (λ w. fl.div w d.sum) d.weight_list; compiled = true })

  unfoldable pub get_obj : (List fl.F → fl.F → ℕ) → fl.F → Divider → Result (Obj × String)
  get_obj search r d =
      if d.compiled
      then elim (get_elem? d.obj_list (search d.weight_list r)) [
        | none ↦ panic
        | some obj ↦ elim (get_elem? d.label_list (search d.weight_list r)) [
          | none ↦ panic
          | some label ↦ ok (obj, label)
        ]
      ]
      else err not_compiled
