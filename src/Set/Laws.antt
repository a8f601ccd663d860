-- ===== src/Set/Laws.antt =====
-- The set of set/set.go against a set of texts.
use real_api_server.Prelude.{
  String, ◌≡◌, refl, Bool, true, false, List, [], ◌∷◌, arith, eq_iff, ◌==◌, string_eq,
  if◌then◌else◌, Bool-cases, inl, inr,
}
use real_api_server.Set.{KeySet, new_set, has_key, delete_key, add, del, has, list}

-- No key stands twice.
abbrev pub IsKeyed : List String → Type 0
IsKeyed [] = Unit
IsKeyed (k ∷ keys) = (has_key k keys ≡ false) × IsKeyed keys

-- The operations that change a set.
pub data Op : Type 0 where
  add_key del_key : String → Op

pub apply : Op → KeySet → KeySet
apply (add_key k) s = add k s
apply (del_key k) s = del k s

pub run : List Op → KeySet
unfolding apply
run [] = new_set
run (op ∷ earlier) = apply op (run earlier)

-- The set of texts that the operations, the last one first, describe.
abbrev pub holds : List Op → String → Bool
holds [] key = false
holds (add_key k ∷ earlier) key = if k == key then true else holds earlier key
holds (del_key k ∷ earlier) key = if k == key then false else holds earlier key

has_key-delete_key :
    (k key : String) (keys : List String)
    → has_key key (delete_key k keys) ≡ (if k == key then false else has_key key keys)
unfolding has_key delete_key
has_key-delete_key k key [] = ground arith
has_key-delete_key k key (j ∷ keys) =
    ground (arith, eq_iff j k, eq_iff k key, eq_iff j key, has_key-delete_key k key keys)

IsKeyed-delete_key : (k : String) (keys : List String) → IsKeyed keys → IsKeyed (delete_key k keys)
unfolding delete_key
IsKeyed-delete_key k [] v = tt
IsKeyed-delete_key k (j ∷ keys) v = elim (Bool-cases (j == k)) [
  | inl e ↦ rw e (IsKeyed-delete_key k keys v.1)
  | inr e ↦ rw e (ground (arith, has_key-delete_key k j keys, v.0), IsKeyed-delete_key k keys v.1)
]

has-add : (k key : String) (s : KeySet) → has key (add k s) ≡ (if k == key then true else has key s)
unfolding has add has_key
has-add k key s = elim (Bool-cases (has_key k s.keys)) [
  | inl e ↦ ground (arith, e, eq_iff k key)
  | inr e ↦ ground (arith, e, eq_iff k key)
]

has-del :
    (k key : String) (s : KeySet) → has key (del k s) ≡ (if k == key then false else has key s)
unfolding has del
has-del k key s = has_key-delete_key k key s.keys

-- After any operations, Has answers as the set of texts that they describe: a key is in it exactly
-- if the last operation on it was Add.
pub has-run : (ops : List Op) (key : String) → has key (run ops) ≡ holds ops key
unfolding run apply
has-run [] key = unfold has in unfold has_key in refl
has-run (add_key k ∷ earlier) key = ground (arith, has-add k key (run earlier), has-run earlier key)
has-run (del_key k ∷ earlier) key = ground (arith, has-del k key (run earlier), has-run earlier key)

add-IsKeyed : (k : String) (s : KeySet) → IsKeyed s.keys → IsKeyed (add k s).keys
unfolding add
add-IsKeyed k s v = elim (Bool-cases (has_key k s.keys)) [ inl e ↦ rw e v | inr e ↦ rw e (e, v) ]

-- After any operations, List holds no key twice.
pub run-IsKeyed : (ops : List Op) → IsKeyed (list (run ops))
unfolding run apply list del
run-IsKeyed [] = tt
run-IsKeyed (add_key k ∷ earlier) = add-IsKeyed k (run earlier) (run-IsKeyed earlier)
run-IsKeyed (del_key k ∷ earlier) = IsKeyed-delete_key k (run earlier).keys (run-IsKeyed earlier)
