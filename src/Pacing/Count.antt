-- ===== src/Pacing/Count.antt =====
-- Add and OverCap of pacing/pacing.go within one minute.
use real_api_server.Prelude.{
  ℕ, ◌+◌, ◌<◌, ◌≡◌, refl, String, none, some, arith, ◌==◌, string_eq, nat_eq, if◌then◌else◌,
  Bool-cases, inl, inr,
}
use real_api_server.Prelude.Int.{ℤ, ◌+ℤ◌, ltb_ℤ}
use real_api_server.Pacing.{ExpiredMap, PacingController, minute, add, threshold, over_cap}

-- Add gives the sum of its count and the count that the minute has. As long as the minute lasts,
-- OverCap then compares this sum with the offer's threshold, and answers for every other offer as
-- before.
pub over_cap-add :
    (em : ExpiredMap) (i j country : String) (manual count : ℤ) (now t : ℕ)
    (ctrl : PacingController em)
    → t < now + 120
    → minute em t ≡ minute em now
    → ((add em i now count ctrl).0
        ≡ elim (em.get ctrl.m (i, minute em now) now) [ none ↦ count | some n ↦ count +ℤ n ])
      × (over_cap em j country manual t (add em i now count ctrl).1 ≡ (
          if i == j
          then ltb_ℤ (threshold em country manual ctrl) (add em i now count ctrl).0
          else over_cap em j country manual t ctrl))
unfolding add over_cap threshold
over_cap-add em i j country manual count now t ctrl h same =
    let total : ℤ = elim (em.get ctrl.m (i, minute em now) now) [
      | none ↦ count
      | some n ↦ count +ℤ n
    ] in
    let read = em.get_put ctrl.m (i, minute em now) (j, minute em now) total now 120 t h in
    (
      refl,
      rw (over_cap, same)
          (elim (Bool-cases (i == j)) [
            | inl e ↦ ground (arith, e, read)
            | inr e ↦ ground (arith, e, read)
          ]),
    )
