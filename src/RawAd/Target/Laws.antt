-- ===== src/RawAd/Target/Laws.antt =====
-- The targets of an offer in raw_ad/raw_ad.go, by key.
use real_api_server.Prelude.{
  String, ◌≡◌, inl, inr, refl, Bool, true, false, List, [], ◌∷◌, ◌++◌, arith, eq_iff, ◌==◌,
  string_eq, if◌then◌else◌, Bool-cases, Option, none, some,
}
use real_api_server.RawAd.Target.{Target, Targets, same_bool, holds, add_value, single, add_target}

-- The target of a key.
abbrev pub find : String → Targets → Option Target
find key [] = none
find key (t ∷ ts) = if t.key == key then some t else find key ts

-- No value stands twice.
abbrev pub Values : List String → Type 0
Values [] = Unit
Values (v ∷ vs) = (holds v vs ≡ false) × Values vs

-- One target to a key, each with distinct values.
abbrev pub IsFormed : Targets → Type 0
IsFormed [] = Unit
IsFormed (t ∷ ts) = (find t.key ts ≡ none) × Values t.vals × IsFormed ts

find-append_single :
    (k key value : String) (b : Bool) (ts : Targets)
    → find key ts ≡ none
    → find k (ts ++ single key value b ∷ [])
      ≡ (if key == k then some (single key value b) else find k ts)
find-append_single k key value b [] h = ground arith
find-append_single k key value b (t ∷ ts) h =
    ground
      (arith, eq_iff t.key key, eq_iff t.key k, eq_iff key k, find-append_single k key value b ts)

-- What AddTarget makes of the target that stood under the key.
pub added : String → String → Bool → Option Target → Target
unfolding add_value
added key value belong none = single key value belong
added key value belong (some t) =
    if same_bool t.belong belong
    then add_value value t
    else if belong
    then single key value belong
    else t

add_value_key : (value : String) (t : Target) → (add_value value t).key ≡ t.key
unfolding add_value
add_value_key value t = ground arith

-- After AddTarget the key has the target that the rule makes of the old one, and every other key has
-- the target that it had, where no key has two targets before.
pub find-add_target :
    (k key value : String) (belong : Bool) (ts : Targets)
    → IsFormed ts
    → find k (add_target key value belong ts)
      ≡ (if key == k then some (added key value belong (find key ts)) else find k ts)
unfolding add_target added
find-add_target k key value belong [] h = ground arith
find-add_target k key value belong (t ∷ ts) h = elim (Bool-cases (t.key == key)) [
  | inl here ↦
      let same = (eq_iff t.key key).0 here in
      let alone : find key ts ≡ none = rw (← same) h.0 in
      rw (here, same)
        (ground (
          arith,
          eq_iff key k,
          add_value_key value t,
          find-append_single k key value belong ts alone,
        ))
  | inr other ↦ rw other (
      ground (
        arith,
        eq_iff t.key k,
        eq_iff t.key key,
        eq_iff key k,
        find-add_target k key value belong ts h.2,
      ))
]

holds-append :
    (v w : String) (vs : List String)
    → holds v (vs ++ w ∷ []) ≡ (if w == v then true else holds v vs)
unfolding holds
holds-append v w [] = ground arith
holds-append v w (u ∷ vs) = ground (arith, holds-append v w vs)

Values-append :
    (w : String) (vs : List String) → Values vs → holds w vs ≡ false → Values (vs ++ w ∷ [])
unfolding holds
Values-append w [] h e = (refl, tt)
Values-append w (v ∷ vs) h e = (
  ground (arith, holds-append v w vs, eq_iff w v, eq_iff v w),
  Values-append w vs h.1 (ground arith),
)

Values-add_value : (value : String) (t : Target) → Values t.vals → Values (add_value value t).vals
unfolding add_value
Values-add_value value t h = elim (Bool-cases (holds value t.vals)) [
  | inl old ↦ rw old h
  | inr new ↦ rw new (Values-append value t.vals h new)
]

IsFormed-append :
    (key value : String) (b : Bool) (ts : Targets)
    → IsFormed ts
    → find key ts ≡ none
    → IsFormed (ts ++ single key value b ∷ [])
unfolding holds
IsFormed-append key value b [] h e = (refl, (refl, tt), tt)
IsFormed-append key value b (t ∷ ts) h e = (
  ground (arith, find-append_single t.key key value b ts, eq_iff t.key key, eq_iff key t.key),
  h.1,
  IsFormed-append key value b ts h.2 (ground arith),
)

-- AddTarget keeps one target to a key, and the values of each target distinct.
pub add_target-IsFormed :
    (key value : String) (belong : Bool) (ts : Targets)
    → IsFormed ts
    → IsFormed (add_target key value belong ts)
unfolding add_target holds
add_target-IsFormed key value belong [] h = (refl, (refl, tt), tt)
add_target-IsFormed key value belong (t ∷ ts) h = elim (Bool-cases (t.key == key)) [
  | inl here ↦
      let same = (eq_iff t.key key).0 here in
      let alone : find key ts ≡ none = rw (← same) h.0 in
      rw here (elim (Bool-cases (same_bool t.belong belong)) [
        | inl e ↦ rw e (rw (add_value_key value t) h.0, Values-add_value value t h.1, h.2)
        | inr e ↦ rw e (elim (Bool-cases belong) [
          | inl into ↦ rw into (IsFormed-append key value true ts h.2 alone)
          | inr out ↦ rw out h
        ])
      ])
  | inr other ↦ rw other (
    ground
        (arith, find-add_target t.key key value belong ts h.2, eq_iff t.key key, eq_iff key t.key),
    h.1,
    add_target-IsFormed key value belong ts h.2,
  )
]
