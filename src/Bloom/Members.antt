-- ===== src/Bloom/Members.antt =====
-- The members of the filter of ct_bloom/ct_bloom.go.
use real_api_server.Prelude.{
  ℕ, ◌<◌, String, ◌≡◌, refl, ◌∙◌, true, List, [], ◌∷◌, arith, nat_eq, ◌⊎◌, inl, inr,
}
use real_api_server.Bloom.{
  BloomFilter, add_num, test_num, test_index, salts, insert_sorted, sort, hash, hashes, add_all,
  add, test_all, test, test_add, calc_indexes,
}
use real_api_server.Bloom.Bits.{IsFilter, add_num-IsFilter, test_num-add_num}

test_index-insert_sorted :
    (bf : BloomFilter) (x : ℕ) (xs : List ℕ)
    → test_index bf (insert_sorted x xs) ≡ test_index bf (x ∷ xs)
unfolding insert_sorted test_index
test_index-insert_sorted bf x [] = refl
test_index-insert_sorted bf x (y ∷ ys) = ground (arith, test_index-insert_sorted bf x ys)

test_index-sort : (bf : BloomFilter) (xs : List ℕ) → test_index bf (sort xs) ≡ test_index bf xs
unfolding sort test_index
test_index-sort bf [] = refl
test_index-sort bf (x ∷ xs) =
    test_index-insert_sorted bf x (sort xs) ∙ ground (arith, test_index-sort bf xs)

module _ (checksum : String → ℕ) where
  hash-lt : (salt s : String) → hash checksum salt s < 512
  unfolding hash
  hash-lt salt s = omega arith

  add_all-IsFilter :
      (list : List String) (s : String) (bf : BloomFilter)
      → IsFilter bf
      → IsFilter (add_all checksum list s bf)
  unfolding add_all
  add_all-IsFilter [] s bf v = v
  add_all-IsFilter (salt ∷ rest) s bf v =
      add_all-IsFilter rest s _ (add_num-IsFilter (hash checksum salt s) bf v)

  -- A bit that is set stays set.
  add_all-keeps :
      (list : List String) (s : String) (bf : BloomFilter) (m : ℕ)
      → IsFilter bf
      → test_num bf m ≡ true
      → test_num (add_all checksum list s bf) m ≡ true
  unfolding add_all
  add_all-keeps [] s bf m v h = h
  add_all-keeps (salt ∷ rest) s bf m v h =
      let n = hash checksum salt s in
      add_all-keeps rest s (add_num n bf) m (add_num-IsFilter n bf v)
        (ground (arith, test_num-add_num n m bf v (hash-lt salt s)))

  test_all-keeps :
      (list others : List String) (s t : String) (bf : BloomFilter)
      → IsFilter bf
      → test_all checksum list t bf ≡ true
      → test_all checksum list t (add_all checksum others s bf) ≡ true
  unfolding test_all
  test_all-keeps [] others s t bf v h = refl
  test_all-keeps (salt ∷ rest) others s t bf v h = ground (
    arith,
    add_all-keeps others s bf (hash checksum salt t) v,
    test_all-keeps rest others s t bf v,
  )

  test_all-add_all :
      (list : List String) (s : String) (bf : BloomFilter)
      → IsFilter bf
      → test_all checksum list s (add_all checksum list s bf) ≡ true
  unfolding test_all add_all
  test_all-add_all [] s bf v = refl
  test_all-add_all (salt ∷ rest) s bf v =
      let n = hash checksum salt s in
      let bf' = add_num n bf in
      let v' = add_num-IsFilter n bf v in
      ground (
        arith,
        add_all-keeps rest s bf' n v' (ground (arith, test_num-add_num n n bf v (hash-lt salt s))),
        test_all-add_all rest s bf' v',
      )

  -- After Add of a text, the filter still has 64 bytes, and every text tests true that is the added
  -- one or tested true before, whatever the checksum.
  pub test-add :
      (s t : String) (bf : BloomFilter)
      → IsFilter bf
      → (t ≡ s) ⊎ (test checksum bf t ≡ true)
      → IsFilter (add checksum s bf) × (test checksum (add checksum s bf) t ≡ true)
  unfolding test add
  test-add s t bf v h = (
    add_all-IsFilter salts s bf v,
    elim h [
      | inl e ↦ rw e (test_all-add_all salts s bf v)
      | inr old ↦ test_all-keeps salts salts s t bf v old
    ],
  )

  test_index-hashes :
      (list : List String) (s : String) (bf : BloomFilter)
      → test_index bf (hashes checksum list s) ≡ test_all checksum list s bf
  unfolding test_index test_all
  test_index-hashes [] s bf = refl
  test_index-hashes (salt ∷ rest) s bf = ground (arith, test_index-hashes rest s bf)

  -- TestIndex on the indexes that CalcIndexes has computed beforehand answers as Test on the text.
  pub test_index-calc_indexes :
      (s : String) (bf : BloomFilter) → test_index bf (calc_indexes checksum s) ≡ test checksum bf s
  unfolding calc_indexes test
  test_index-calc_indexes s bf =
      test_index-sort bf (hashes checksum salts s) ∙ test_index-hashes salts s bf

  -- TestAdd answers whether the text tested true before, and after it the text tests true.
  pub test_add-Test :
      (s : String) (bf : BloomFilter)
      → IsFilter bf
      → ((test_add checksum s bf).1 ≡ test checksum bf s)
        × (test checksum (test_add checksum s bf).0 s ≡ true)
  unfolding test_add
  test_add-Test s bf v = (refl, ground (arith, (test-add s s bf v (inl refl)).1))
