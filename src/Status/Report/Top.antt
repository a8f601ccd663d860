-- ===== src/Status/Report/Top.antt =====
-- The top lists of status/retrieval_report.go.
use real_api_server.Prelude.{
  ℕ, zero, suc, ◌≤◌, String, ◌≡◌, refl, Option, some, List, [], ◌∷◌, ◌++◌, arith, ltb, length, All,
  min, if◌then◌else◌,
}
use real_api_server.Prelude.Dict.{Dict, insert}
use real_api_server.Prelude.Run.{ok}
use real_api_server.GoHeap
use real_api_server.GoHeap.Slots.{weigh, Same, Same-length, weigh-append}
use real_api_server.GoHeap.Queue.{IsHeap, IsFirst, push-IsHeap, pop-IsHeap}
use real_api_server.GoHeap.Sift.{Compares}
use real_api_server.Status.Report.{Elem, Item, more, enqueue, drain, entries, set_top}

abbrev place_p : Item → ℕ
place_p _ = 0

abbrev place_n : Item → ℕ
place_n x = x.elem.req

more-Compares : Compares place_p place_n more
more-Compares a b = ground arith

abbrev pub item_of : String × Elem → Item
item_of (k, e) = record { key = k; elem = e }

-- The items of a map in the order of the walk.
abbrev pub items : Dict Elem → List Item
items [] = []
items (e ∷ m) = item_of e ∷ items m

enqueue-IsHeap :
    (src : Dict Elem) (h : List Item)
    → IsHeap place_p place_n h
    → IsHeap place_p place_n (enqueue src h) × Same (enqueue src h) (items src ++ h)
unfolding enqueue
enqueue-IsHeap [] h v = (v, λ w. refl)
enqueue-IsHeap ((k, e) ∷ src) h v =
    let (heap, same) = push-IsHeap place_p place_n more more-Compares h (item_of (k, e)) v in
    let (heap', same') = enqueue-IsHeap src (GoHeap.push more h (item_of (k, e))) heap in
    (
      heap',
      λ w. omega (
        arith,
        same w,
        same' w,
        weigh-append w (items src) h,
        weigh-append w (items src) (GoHeap.push more h (item_of (k, e))),
      ),
    )

-- dst[item.Key] = item.Elem for each item in turn
abbrev pub store : List Item → Dict (Option Elem) → Dict (Option Elem)
store [] dst = dst
store (x ∷ xs) dst = store xs (insert x.key (some x.elem) dst)

-- `taken` are `top` of the items, or all if there are fewer, in descending order of requests, and
-- no item of `rest` has more requests than any of them.
abbrev pub Descending : List Item → List Item → Type 0
Descending [] rest = Unit
Descending (x ∷ xs) rest =
    All (λ (y : Item). y.elem.req ≤ x.elem.req) (xs ++ rest) × Descending xs rest

pub record Topped (src : List Item) (top : ℕ) (taken rest : List Item) : Type 0 where
  pub same : Same (taken ++ rest) src
  pub size : length taken ≡ min top (length src)
  pub sorted : Descending taken rest

abbrev AtMost : ℕ → List Item → Type 0
AtMost k l = All (λ (y : Item). y.elem.req ≤ k) l

-- 1 for an item with more than `k` requests
above : ℕ → Item → ℕ
above k y = if ltb k y.elem.req then 1 else 0

AtMost-weigh : (k : ℕ) (l : List Item) → AtMost k l → weigh (above k) l ≡ 0
unfolding above
AtMost-weigh k [] h = refl
AtMost-weigh k (y ∷ l) h = ground (arith, AtMost-weigh k l h.1)

weigh-AtMost : (k : ℕ) (l : List Item) → weigh (above k) l ≡ 0 → AtMost k l
unfolding above
weigh-AtMost k [] h = tt
weigh-AtMost k (y ∷ l) h = (ground arith, weigh-AtMost k l (ground arith))

IsFirst-AtMost : (x : Item) (l : List Item) → IsFirst place_p place_n x l → AtMost x.elem.req l
IsFirst-AtMost x [] h = tt
IsFirst-AtMost x (y ∷ l) h =
    (omega (arith, h 0 (omega arith)), IsFirst-AtMost x l (λ i b. first i b))
  where
    first : IsFirst place_p place_n x l
    first i b = h (suc i) (omega arith)

drain-Topped :
    (top : ℕ) (h : List Item) (dst : Dict (Option Elem))
    → IsHeap place_p place_n h
    → (taken : List Item) × (rest : List Item) × (drain top h dst ≡ ok (store taken dst))
      × Topped h top taken rest
unfolding drain
drain-Topped zero h dst v =
    ([], h, refl, record { same = λ w. refl; size = omega arith; sorted = tt })
drain-Topped (suc top) [] dst v =
    ([], [], refl, record { same = λ w. refl; size = omega arith; sorted = tt })
drain-Topped (suc top) (y ∷ l) dst v =
    let (x, rest', r) = pop-IsHeap place_p place_n more more-Compares (y ∷ l) v (omega arith) in
    let (taken, rest, e, t) = drain-Topped top rest' (insert x.key (some x.elem) dst) r.heap in
    let whole : Same (x ∷ taken ++ rest) (y ∷ l) = λ w. omega (arith, t.same w, r.same w) in
    let least = AtMost-weigh x.elem.req (y ∷ l) (IsFirst-AtMost x (y ∷ l) r.first) in
    (
      x ∷ taken,
      rest,
      rw (r.result, drain) e,
      record {
        same = whole;
        size = omega (arith, t.size, Same-length (x ∷ rest') (y ∷ l) r.same);
        sorted = (
          (weigh-AtMost x.elem.req (x ∷ taken ++ rest)
              (omega (arith, whole (above x.elem.req), least))).1,
          t.sorted,
        );
      },
    )

-- setTop never panics. It stores `top` of the entries of the map, or all if there are fewer, in
-- descending order of requests, and no entry that it leaves out has more requests than one stored.
pub set_top-Topped :
    (dst : Dict (Option Elem)) (src : Option (Dict Elem)) (top : ℕ)
    → (taken : List Item) × (rest : List Item) × (set_top dst src top ≡ ok (store taken dst))
      × Topped (items (entries src)) top taken rest
unfolding set_top
set_top-Topped dst src top =
    let start : IsHeap place_p place_n [] = λ c u w. absurd (omega arith) in
    let (heap, same) = enqueue-IsHeap (entries src) [] start in
    let (taken, rest, e, t) = drain-Topped top (enqueue (entries src) []) dst heap in
    let back : Same (enqueue (entries src) []) (items (entries src)) =
      λ w. omega (arith, same w, weigh-append w (items (entries src)) []) in
    (
      taken,
      rest,
      e,
      record {
        same = λ w. omega (arith, t.same w, back w);
        size = omega (arith, t.size, Same-length _ _ back);
        sorted = t.sorted;
      },
    )
