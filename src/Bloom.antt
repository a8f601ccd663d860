-- ===== src/Bloom.antt =====
-- ct_bloom/ct_bloom.go: a bloom filter of 512 bits in 64 bytes with 7 hash functions.
-- `checksum` is crc32.Checksum with the IEEE table, of the bytes of a text.
pub mod Bits
pub mod Members
mod Tests
use Prim.Native.Nat.{bit_and, bit_or}
use Prim.Native.String.{◌++◌ as str_append}
use real_api_server.Prelude.{
  ℕ, zero, suc, ◌+◌, ◌*◌, ◌/◌, ◌%◌, String, Bool, true, false, not, Option, none, some, List, [],
  ◌∷◌, ◌++◌, get_elem?, set, leb, ◌==◌, nat_eq, if◌then◌else◌, replicate,
}

pub record BloomFilter : Type 0 where
  pub bucket : List ℕ

abbrev pub bits : List ℕ
bits = 128 ∷ 64 ∷ 32 ∷ 16 ∷ 8 ∷ 4 ∷ 2 ∷ 1 ∷ []

-- bits[n]; the callers' n is below 8
unfoldable pub bit : ℕ → ℕ
bit n = elim (get_elem? bits n) [ none ↦ 0 | some b ↦ b ]

-- setBit
unfoldable pub set_bit : ℕ → ℕ → ℕ
unfolding bit
set_bit b n = bit_or b (bit n)

-- bits[n] & b != 0
unfoldable pub has_bit : ℕ → ℕ → Bool
unfolding bit
has_bit b n = not (bit_and b (bit n) == 0)

-- bucket[i]; an index of 64 or more, which panics in Go, reads 0 here
unfoldable pub byte_at : List ℕ → ℕ → ℕ
byte_at bucket i = elim (get_elem? bucket i) [ none ↦ 0 | some b ↦ b ]

pub add_num : ℕ → BloomFilter → BloomFilter
unfolding set_bit byte_at
add_num n bf = record bf {
  bucket = set bf.bucket (n / 8) (set_bit (byte_at bf.bucket (n / 8)) (n % 8));
}

unfoldable pub test_num : BloomFilter → ℕ → Bool
unfolding has_bit byte_at
test_num bf n = has_bit (byte_at bf.bucket (n / 8)) (n % 8)

unfoldable pub test_index : BloomFilter → List ℕ → Bool
unfolding test_num
test_index bf [] = true
test_index bf (n ∷ index) = if not (test_num bf n) then false else test_index bf index

-- the texts of strconv.Itoa(i+1) for the seven hash functions
abbrev pub salts : List String
salts = "1" ∷ "2" ∷ "3" ∷ "4" ∷ "5" ∷ "6" ∷ "7" ∷ []

-- sort.Sort of unsigned numbers: any sort that orders them has this result
pub insert_sorted : ℕ → List ℕ → List ℕ
insert_sorted x [] = x ∷ []
insert_sorted x (y ∷ ys) = if leb x y then x ∷ y ∷ ys else y ∷ insert_sorted x ys

pub sort : List ℕ → List ℕ
unfolding insert_sorted
sort [] = []
sort (x ∷ xs) = insert_sorted x (sort xs)

module _ (checksum : String → ℕ) where
  pub hash : String → String → ℕ
  hash salt s = checksum (str_append salt s) % 512

  -- the loop of Add over the hash functions
  pub add_all : List String → String → BloomFilter → BloomFilter
  unfolding hash add_num
  add_all [] s bf = bf
  add_all (salt ∷ rest) s bf = add_all rest s (add_num (hash salt s) bf)

  pub add : String → BloomFilter → BloomFilter
  unfolding add_all
  add s bf = add_all salts s bf

  pub test_all : List String → String → BloomFilter → Bool
  unfolding hash test_num
  test_all [] s bf = true
  test_all (salt ∷ rest) s bf =
      if not (test_num bf (hash salt s)) then false else test_all rest s bf

  pub test : BloomFilter → String → Bool
  unfolding test_all
  test bf s = test_all salts s bf

  pub test_add : String → BloomFilter → BloomFilter × Bool
  unfolding test add
  test_add s bf = let rc = test bf s in (if not rc then add s bf else bf, rc)

  abbrev pub hashes : List String → String → List ℕ
  hashes [] s = []
  hashes (salt ∷ rest) s = hash salt s ∷ hashes rest s

  pub calc_indexes : String → List ℕ
  unfolding hash sort
  calc_indexes s = sort (hashes salts s)

-- GetIndex: bit j of byte i is index i*8 + j
pub byte_indexes : ℕ → ℕ → ℕ → ℕ → List ℕ
unfolding has_bit
byte_indexes zero i j b = []
byte_indexes (suc left) i j b =
    let rest = byte_indexes left i (j + 1) b in if has_bit b j then (i * 8 + j) ∷ rest else rest

pub index_from : ℕ → List ℕ → List ℕ
unfolding byte_indexes
index_from i [] = []
index_from i (b ∷ bucket) = byte_indexes 8 i 0 b ++ index_from (i + 1) bucket

pub get_index : BloomFilter → List ℕ
unfolding index_from
get_index bf = index_from 0 bf.bucket

-- NewBloomFilter after base64 decoding: copy into 64 zero bytes
pub copy_into : List ℕ → List ℕ → List ℕ
copy_into [] src = []
copy_into (d ∷ dst) [] = d ∷ dst
copy_into (d ∷ dst) (b ∷ src) = b ∷ copy_into dst src

pub new_bloom_filter : (String → Option (List ℕ)) → String → Option BloomFilter
unfolding copy_into
new_bloom_filter decode s = elim (decode s) [
  | none ↦ none
  | some bytes ↦ some (record { bucket = copy_into (replicate 64 0) bytes })
]
