-- ===== src/Pacing.antt =====
-- pacing/pacing.go: how many clicks an offer may get in a minute. The expiring map of gotools is a
-- parameter: `get` and `put` at a time in seconds, with the law that a value is read back until it
-- expires. The key `fmt.Sprintf("%s_%d", ...)` tells the id and the minute apart, so it is the pair.
pub mod Count
mod Tests
use real_api_server.Prelude.{
  ℕ, ◌+◌, ◌/◌, ◌%◌, ◌<◌, ◌≡◌, String, Bool, true, false, not, Option, none, some, ◌==◌, string_eq,
  nat_eq, ◌&&◌, if◌then◌else◌,
}
use real_api_server.Prelude.Int.{ℤ, pos, minus_one, ◌+ℤ◌, ◌*ℤ◌, ltb_ℤ, eqb_ℤ, quot}

abbrev pub Key : Type 0
Key = String × ℕ

abbrev pub same_key : Key → Key → Bool
same_key (i, m) (j, n) = i == j && m == n

pub record ExpiredMap : Type 1 where
  pub M : Type 0
  -- the value at a time, if there is one that has not expired
  pub get : M → Key → ℕ → Option ℤ
  -- put with a lifetime in seconds
  pub put : M → Key → ℤ → ℕ → ℕ → M
  pub get_put :
      (m : M) (k j : Key) (v : ℤ) (now life t : ℕ)
      → t < now + life
      → get (put m k v now life) j t ≡ (if same_key k j then some v else get m j t)

module _ (em : ExpiredMap) where
  pub record PacingController : Type 0 where
    pub m : em.M
    pub pacing : ℤ
    pub n_instances : ℕ

  -- now.Minute()
  abbrev pub minute : ℕ → ℕ
  minute now = now / 60 % 60

  -- Add: the new count and the controller
  pub add : String → ℕ → ℤ → PacingController → ℤ × PacingController
  add uniq_id now count ctrl =
      let key : Key = (uniq_id, minute now) in
      let total : ℤ = elim (em.get ctrl.m key now) [ none ↦ count | some n ↦ count +ℤ n ] in
      (total, record ctrl { m = em.put ctrl.m key total now 120 })

  -- the threshold of OverCap
  pub threshold : String → ℤ → PacingController → ℤ
  threshold country manual_pacing ctrl =
      if eqb_ℤ manual_pacing minus_one
      then (if country == "CN" then ctrl.pacing *ℤ pos 2 else ctrl.pacing)
      else quot manual_pacing ctrl.n_instances

  pub over_cap : String → String → ℤ → ℕ → PacingController → Bool
  unfolding threshold
  over_cap uniq_id country manual_pacing now ctrl = elim (em.get ctrl.m (uniq_id, minute now) now) [
    | none ↦ false
    | some n ↦ ltb_ℤ (threshold country manual_pacing ctrl) n
  ]
