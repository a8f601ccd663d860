-- ===== src/ClickCounter/Totals.antt =====
-- The clicks that click_counter/click_counter.go is given, and those that it posts.
use real_api_server.Prelude.{
  String, ◌≡◌, refl, sym, ap, ◌∙◌, none, some, List, [], ◌∷◌, ◌++◌, arith, eq_iff, ◌==◌, string_eq,
  if◌then◌else◌, inl, inr, Bool-cases,
}
use real_api_server.Prelude.Int.{ℤ, pos, ◌+ℤ◌, +ℤ_assoc, +ℤ_comm, zero-+ℤ, int_laws}
use real_api_server.Prelude.Dict.{Dict, lookup, insert}
use real_api_server.ClickCounter.{OfferCount, Counter, add_click, offers_of, submit_click_count}

-- The counter is told of a click, or submits.
pub data Event : Type 0 where
  click : String → ℤ → Event
  submit : Event

-- The counter and all that has been posted, after events.
pub run : List Event → Counter → List OfferCount × Counter
run [] ck = ([], ck)
run (click oid n ∷ events) ck = run events (add_click oid n ck)
run (submit ∷ events) ck =
    let (body, ck') = submit_click_count ck in
    let (later, end) = run events ck' in (body ++ later, end)

-- The clicks of one offer in what is posted, in the counter's map, and in the events.
abbrev pub posted : String → List OfferCount → ℤ
posted oid [] = pos 0
posted oid (o ∷ os) = if o.offer_id == oid then o.clk_num +ℤ posted oid os else posted oid os

abbrev pub pending : String → Dict ℤ → ℤ
pending oid [] = pos 0
pending oid ((k, n) ∷ m) = if k == oid then n +ℤ pending oid m else pending oid m

abbrev pub clicked : String → List Event → ℤ
clicked oid [] = pos 0
clicked oid (click k n ∷ es) = if k == oid then n +ℤ clicked oid es else clicked oid es
clicked oid (submit ∷ es) = clicked oid es

posted-offers_of : (oid : String) (m : Dict ℤ) → posted oid (offers_of m) ≡ pending oid m
unfolding offers_of
posted-offers_of oid [] = refl
posted-offers_of oid ((k, n) ∷ m) = ground (arith, posted-offers_of oid m)

posted-append :
    (oid : String) (xs ys : List OfferCount)
    → posted oid (xs ++ ys) ≡ posted oid xs +ℤ posted oid ys
posted-append oid [] ys = sym (zero-+ℤ (posted oid ys))
posted-append oid (x ∷ xs) ys = elim (Bool-cases (x.offer_id == oid)) [
  | inl e ↦ rw e (
      ap (λ z. x.clk_num +ℤ z) (posted-append oid xs ys)
      ∙ sym (+ℤ_assoc x.clk_num (posted oid xs) (posted oid ys)))
  | inr e ↦ rw e (posted-append oid xs ys)
]

last_two : (a b c : ℤ) → (a +ℤ b) +ℤ c ≡ (a +ℤ c) +ℤ b
last_two a b c = omega int_laws

pending-insert :
    (oid k : String) (n : ℤ) (m : Dict ℤ)
    → pending oid (insert k (elim (lookup k m) [ none ↦ n | some c ↦ c +ℤ n ]) m)
      ≡ (if k == oid then pending oid m +ℤ n else pending oid m)
unfolding insert lookup
pending-insert oid k n [] = ground (arith, +ℤ_comm n (pos 0))
pending-insert oid k n ((j, c) ∷ m) = ground (
  arith,
  eq_iff j k,
  eq_iff j oid,
  eq_iff k oid,
  pending-insert oid k n m,
  last_two c (pending oid m) n,
  +ℤ_assoc c (pending oid m) n,
)

pending-add_click :
    (oid k : String) (n : ℤ) (ck : Counter)
    → pending oid (add_click k n ck).click_count
      ≡ (if k == oid then pending oid ck.click_count +ℤ n else pending oid ck.click_count)
unfolding add_click
pending-add_click oid k n ck = pending-insert oid k n ck.click_count

-- Nothing that is counted gets lost before it is posted: for every offer, the clicks that all posted
-- bodies hold, with those that the counter still keeps, are those that it had at the start and those
-- of the events.
pub run-adds :
    (oid : String) (events : List Event) (ck : Counter)
    → posted oid (run events ck).0 +ℤ pending oid (run events ck).1.click_count
      ≡ pending oid ck.click_count +ℤ clicked oid events
unfolding run submit_click_count
run-adds oid [] ck = +ℤ_comm (pos 0) (pending oid ck.click_count)
run-adds oid (click k n ∷ events) ck =
    run-adds oid events (add_click k n ck) ∙ elim (Bool-cases (k == oid)) [
      | inl e ↦ ground (
        arith,
        e,
        pending-add_click oid k n ck,
        +ℤ_assoc (pending oid ck.click_count) n (clicked oid events),
      )
      | inr e ↦ ground (arith, e, pending-add_click oid k n ck)
    ]
run-adds oid (submit ∷ events) ck =
    let body = offers_of ck.click_count in
    let emptied = record ck { click_count = [] } in
    let r = run events emptied in
    ap (λ z. z +ℤ pending oid r.1.click_count) (posted-append oid body r.0)
    ∙ +ℤ_assoc (posted oid body) (posted oid r.0) (pending oid r.1.click_count)
    ∙ ap (λ z. posted oid body +ℤ z) (run-adds oid events emptied ∙ zero-+ℤ (clicked oid events))
    ∙ ap (λ z. z +ℤ clicked oid events) (posted-offers_of oid ck.click_count)
