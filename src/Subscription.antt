-- ===== src/Subscription.antt =====
-- subscription/subscription.go: which network's scripts a country gets. The answer of the update server,
-- the scripts of a network and sort.SearchFloat64s are parameters.
pub mod Channels
mod Tests
use real_api_server.Prelude.{
  ℕ, String, Bool, true, false, not, ◌&&◌, Option, none, some, List, [], ◌∷◌, get_elem?, ltb,
  length, ◌==◌, nat_eq, string_eq, if◌then◌else◌,
}
use real_api_server.Prelude.Dict.{Dict, lookup, insert}
use real_api_server.Prelude.Float.{Float64}
use real_api_server.Prelude.Run.{Run, ok, panic}
use real_api_server.Util.Divider.{Divider, new_divider, add_obj, compile, get_obj}
use real_api_server.Util.Divider

-- The function of a network; that of top1 takes the conditions of the request too, so that it is of
-- another type.
pub record JsFunc : Type 0 where
  pub channel : String
  pub takes_conds : Bool

pub record DetailCountry (F : Type 0) : Type 0 where
  pub switch_ : ℕ
  pub channel : String
  pub weight : F
  pub country : List String

-- the cases of addApp
pub func_of : String → Option JsFunc
func_of ch =
    if ch == "top1"
    then some (record { channel = "top1"; takes_conds = true })
    else if ch == "kok"
    then some (record { channel = "kok"; takes_conds = false })
    else if ch == "mop"
    then some (record { channel = "mop"; takes_conds = false })
    else if ch == "ifm"
    then some (record { channel = "ifm"; takes_conds = false })
    else if ch == "wewo"
    then some (record { channel = "wewo"; takes_conds = false })
    else if ch == "subym"
    then some (record { channel = "subym"; takes_conds = false })
    else if ch == "wmb"
    then some (record { channel = "wmb"; takes_conds = false })
    else if ch == "starp"
    then some (record { channel = "starp"; takes_conds = false })
    else if ch == "mbn"
    then some (record { channel = "mbn"; takes_conds = false })
    else none

-- What GetMoreSubJs calls, or `(nil, "")`.
pub data Choice : Type 0 where
  nothing : Choice
  called : JsFunc → Choice

module _ (fl : Float64) where
  abbrev pub Traffic : Type 0
  Traffic = Divider fl JsFunc

  -- addApp; an error of AddObj leaves the divider as it is
  pub add_app : DetailCountry fl.F → Traffic → Traffic
  unfolding func_of
  add_app sub t = elim (func_of sub.channel) [
    | none ↦ t
    | some f ↦ elim (add_obj fl JsFunc sub.weight f sub.channel t) [
      | Divider.ok t' ↦ t'
      | Divider.err e ↦ t
      | Divider.panic ↦ t
    ]
  ]

  -- the loop over the countries of one entry; a country that is new gets a new divider
  pub add_countries : DetailCountry fl.F → List String → Dict Traffic → Dict Traffic
  unfolding lookup insert add_app
  add_countries sc [] sub_country = sub_country
  add_countries sc (c ∷ cs) sub_country =
      let traffic : Traffic = elim (lookup c sub_country) [
        | none ↦ new_divider fl JsFunc
        | some t ↦ t
      ] in
      add_countries sc cs (insert c (add_app sc traffic) sub_country)

  -- the loop over the entries
  pub add_entries : List (DetailCountry fl.F) → Dict Traffic → Dict Traffic
  unfolding add_countries
  add_entries [] sub_country = sub_country
  add_entries (sc ∷ scs) sub_country =
      add_entries scs
        (if not (sc.switch_ == 1) then sub_country else add_countries sc sc.country sub_country)

  -- t.Compile(), whose error is not looked at
  pub compiled : Traffic → Traffic
  compiled t = elim (compile fl JsFunc t) [
    | Divider.ok t' ↦ t'
    | Divider.err e ↦ t
    | Divider.panic ↦ t
  ]

  pub compile_all : Dict Traffic → Dict Traffic
  unfolding compiled
  compile_all [] = []
  compile_all ((c, t) ∷ m) = (c, compiled t) ∷ compile_all m

  -- update, of Init: the status and the entries of the server's answer, `none` for an error
  pub update : Option (ℕ × List (DetailCountry fl.F)) → Dict Traffic → Dict Traffic
  unfolding add_entries compile_all
  update none old = old
  update (some (status, sc)) old =
      if not (status == 200) then old else compile_all (add_entries sc [])

  -- the call of what GetObj gives: the type assertions panic if the function is of the other type
  pub call_obj : Divider.Result (JsFunc × String) → Run Choice
  call_obj (Divider.ok (f, channel)) =
      if channel == "top1"
      then (if f.takes_conds then ok (called f) else panic)
      else if f.takes_conds
      then panic
      else ok (called f)
  call_obj (Divider.err e) = ok nothing
  call_obj Divider.panic = panic

  -- GetMoreSubJs; `none` is gSubControl before Init
  pub get_more_sub_js : (List fl.F → fl.F → ℕ) → fl.F → Option (Dict Traffic) → String → Run Choice
  unfolding lookup call_obj
  get_more_sub_js search r none country = ok nothing
  get_more_sub_js search r (some sub_country) country = elim (lookup country sub_country) [
    | none ↦ ok nothing
    | some traffic ↦ call_obj (get_obj fl JsFunc search r traffic)
  ]
