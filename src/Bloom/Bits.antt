-- ===== src/Bloom/Bits.antt =====
-- One bit of a byte, and one index of the filter of ct_bloom/ct_bloom.go.
use real_api_server.Prelude.{
  ℕ, zero, suc, ◌/◌, ◌%◌, ◌<◌, ◌≡◌, refl, Bool, true, false, not, ◌&&◌, ◌||◌, List, [], ◌∷◌, arith,
  length, set, All, ◌==◌, nat_eq, if◌then◌else◌, ltb, ltb→lt, length-set,
}
use real_api_server.Bloom.{BloomFilter, set_bit, has_bit, byte_at, add_num, test_num}

-- A test of all numbers under a bound, by evaluation.
passes : (ℕ → Bool) → ℕ → Bool
passes test zero = true
passes test (suc bound) = passes test bound && test bound

passes_at : (test : ℕ → Bool) (bound k : ℕ) → k < bound → passes test bound ≡ true → test k ≡ true
unfolding passes
passes_at test zero k under h = absurd (omega arith)
passes_at test (suc bound) k under h = ground (arith, passes_at test bound k)

abbrev same_bit : Bool → Bool → Bool
same_bit true b = b
same_bit false b = not b

same_bit_eq : (a b : Bool) → same_bit a b ≡ true → a ≡ b
same_bit_eq a b h = ground arith

abbrev check : ℕ → ℕ → ℕ → Bool
check b n m = same_bit (has_bit (set_bit b n) m) (n == m || has_bit b m)

-- every byte, and every pair of bits
bit_table : passes (λ b. passes (λ n. passes (λ m. check b n m) 8) 8) 256 ≡ true
unfolding passes has_bit set_bit
bit_table = refl

byte_table : passes (λ b. passes (λ n. ltb (set_bit b n) 256) 8) 256 ≡ true
unfolding passes set_bit
byte_table = refl

has_bit-set_bit :
    (b n m : ℕ) → b < 256 → n < 8 → m < 8 → has_bit (set_bit b n) m ≡ (n == m || has_bit b m)
has_bit-set_bit b n m hb hn hm =
    same_bit_eq _ _ (passes_at _ 8 m hm (passes_at _ 8 n hn (passes_at _ 256 b hb bit_table)))

set_bit-lt : (b n : ℕ) → b < 256 → n < 8 → set_bit b n < 256
set_bit-lt b n hb hn = ltb→lt _ _ (passes_at _ 8 n hn (passes_at _ 256 b hb byte_table))

-- 64 bytes.
pub record IsFilter (bf : BloomFilter) : Type 0 where
  pub size : length bf.bucket ≡ 64
  pub bytes : All (λ b. b < 256) bf.bucket

byte_at-lt : (l : List ℕ) (i : ℕ) → All (λ b. b < 256) l → byte_at l i < 256
unfolding byte_at
byte_at-lt [] i h = omega arith
byte_at-lt (b ∷ l) zero h = h.0
byte_at-lt (b ∷ l) (suc i) h = byte_at-lt l i h.1

byte_at-set :
    (l : List ℕ) (i j v : ℕ)
    → i < length l
    → byte_at (set l i v) j ≡ (if i == j then v else byte_at l j)
unfolding byte_at
byte_at-set [] i j v h = absurd (omega arith)
byte_at-set (b ∷ l) zero zero v h = refl
byte_at-set (b ∷ l) zero (suc j) v h = ground arith
byte_at-set (b ∷ l) (suc i) zero v h = ground arith
byte_at-set (b ∷ l) (suc i) (suc j) v h = ground (arith, byte_at-set l i j v)

All-set : (l : List ℕ) (i v : ℕ) → All (λ b. b < 256) l → v < 256 → All (λ b. b < 256) (set l i v)
All-set [] i v h k = tt
All-set (b ∷ l) zero v h k = (k, h.1)
All-set (b ∷ l) (suc i) v h k = (h.0, All-set l i v h.1 k)

-- Setting a bit keeps 64 bytes.
pub add_num-IsFilter : (n : ℕ) (bf : BloomFilter) → IsFilter bf → IsFilter (add_num n bf)
unfolding add_num
add_num-IsFilter n bf v = record {
  size =
      omega
        (arith, v.size, length-set bf.bucket (n / 8) (set_bit (byte_at bf.bucket (n / 8)) (n % 8)));
  bytes =
      All-set bf.bucket (n / 8) _ v.bytes
        (set_bit-lt _ (n % 8) (byte_at-lt bf.bucket (n / 8) v.bytes) (omega arith));
}

-- After an index is added, exactly it and the indexes that were there test true.
pub test_num-add_num :
    (n m : ℕ) (bf : BloomFilter)
    → IsFilter bf
    → n < 512
    → test_num (add_num n bf) m ≡ (n == m || test_num bf m)
unfolding add_num test_num
test_num-add_num n m bf v h =
    let b = byte_at bf.bucket (n / 8) in
    ground (
      arith,
      byte_at-set bf.bucket (n / 8) (m / 8) (set_bit b (n % 8)),
      v.size,
      has_bit-set_bit b (n % 8) (m % 8) (byte_at-lt bf.bucket (n / 8) v.bytes),
    )
