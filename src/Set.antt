-- ===== src/Set.antt =====
-- set/set.go: a set of texts, as the map's keys. Go walks a map in any order; here it is the order of
-- the list.
pub mod Laws
mod Tests
use real_api_server.Prelude.{
  ℕ, String, Bool, true, false, List, [], ◌∷◌, length, ◌==◌, string_eq, if◌then◌else◌,
}

pub record KeySet : Type 0 where
  pub keys : List String

abbrev pub new_set : KeySet
new_set = record { keys = [] }

-- _, ok := s.set[key]
pub has_key : String → List String → Bool
has_key key [] = false
has_key key (k ∷ keys) = let rest = has_key key keys in if k == key then true else rest

-- delete(s.set, key)
pub delete_key : String → List String → List String
delete_key key [] = []
delete_key key (k ∷ keys) = let rest = delete_key key keys in if k == key then rest else k ∷ rest

-- s.set[key] = Exist
pub add : String → KeySet → KeySet
unfolding has_key
add key s = if has_key key s.keys then s else record s { keys = key ∷ s.keys }

pub del : String → KeySet → KeySet
unfolding delete_key
del key s = record s { keys = delete_key key s.keys }

pub has : String → KeySet → Bool
unfolding has_key
has key s = has_key key s.keys

pub size : KeySet → ℕ
size s = length s.keys

-- List
pub list : KeySet → List String
list s = s.keys
