-- ===== src/Bloom/Tests.antt =====
-- The empty filter, with a checksum for tests.
use real_api_server.Prelude.{
  ℕ, ◌≡◌, inl, refl, String, true, ◌==◌, string_eq, if◌then◌else◌, arith, replicate,
}
use real_api_server.Bloom.{BloomFilter, add, test}
use real_api_server.Bloom.Bits.{IsFilter}
use real_api_server.Bloom.Members.{test-add}

abbrev checksum : String → ℕ
checksum s = if s == "1com.a" then 9 else if s == "2com.a" then 1000 else 77

abbrev empty_filter : BloomFilter
empty_filter = record { bucket = replicate 64 0 }

empty_filter-IsFilter : IsFilter empty_filter
empty_filter-IsFilter = record { size = refl; bytes = ground arith }

test-add_example :
    IsFilter (add checksum "com.a" empty_filter)
    × (test checksum (add checksum "com.a" empty_filter) "com.a" ≡ true)
test-add_example = test-add checksum "com.a" "com.a" empty_filter empty_filter-IsFilter (inl refl)
