-- ===== src/Rank/Draw.antt =====
-- The draws of RandCopy of rank/rank.go.
use real_api_server.Prelude.{
  ℕ, zero, suc, ◌+◌, ◌-◌, ◌≤◌, ◌<◌, ◌≡◌, refl, ap, ◌∙◌, some, List, [], ◌∷◌, ◌++◌, arith, length,
  length-append, length-take, get_elem?, set, take, nat_eq,
}
use real_api_server.Prelude.Run.{Run, ok}
use real_api_server.GoHeap.{swap}
use real_api_server.GoHeap.Slots.{
  at-swap, weigh, weigh-append, weigh-take, get_elem?-in, at-get_elem?, swap-Same, length-swap,
}
use real_api_server.RawAd.{RawAd}
use real_api_server.Rank.{pick_random}

-- What rand.Intn promises: a draw below its bound.
abbrev pub InBound : (ℕ → ℕ → ℕ) → Type 0
InBound draw = (i l : ℕ) → 0 < l → draw i l < l

module _ {A : Type 0} where
  get_elem?-take : (n : ℕ) (l : List A) (i : ℕ) → i < n → get_elem? (take n l) i ≡ get_elem? l i
  get_elem?-take zero l i h = absurd (omega arith)
  get_elem?-take (suc n) [] i h = refl
  get_elem?-take (suc n) (x ∷ l) zero h = refl
  get_elem?-take (suc n) (x ∷ l) (suc i) h = get_elem?-take n l i (omega arith)

  take-set : (n : ℕ) (l : List A) (i : ℕ) (v : A) → take n (set l i v) ≡ set (take n l) i v
  take-set zero [] i v = refl
  take-set zero (x ∷ l) i v = refl
  take-set (suc n) [] i v = refl
  take-set (suc n) (x ∷ l) zero v = refl
  take-set (suc n) (x ∷ l) (suc i) v = ap (◌∷◌ x) (take-set n l i v)

  take-swap :
      (n : ℕ) (l : List A) (i j : ℕ)
      → i < n
      → j < n
      → n ≤ length l
      → take n (swap l i j) ≡ swap (take n l) i j
  unfolding swap
  take-swap n l i j hi hj h =
      let (x, ex) = get_elem?-in l i (omega arith) in
      let (y, ey) = get_elem?-in l j (omega arith) in
      ground (
        arith,
        get_elem?-take n l i hi,
        get_elem?-take n l j hj,
        take-set n (set l i y) j x,
        take-set n l i y,
      )

  take-take : (n : ℕ) (l : List A) → take n (take (suc n) l) ≡ take n l
  take-take zero l = refl
  take-take (suc n) [] = refl
  take-take (suc n) (x ∷ l) = ap (◌∷◌ x) (take-take n l)

  -- The draw takes one entry away from the front part.
  weigh-drawn :
      (w : A → ℕ) (n : ℕ) (l : List A) (d : ℕ) {x : A}
      → d < suc n
      → suc n ≤ length l
      → get_elem? l d ≡ some x
      → weigh w (take n (swap l d n)) + w x ≡ weigh w (take (suc n) l)
  weigh-drawn w n l d hd hn e =
      let m = take (suc n) l in
      let hm = length-take (suc n) l in
      let hdm : d < length m = omega (arith, hm) in
      let hnm : n < length m = omega (arith, hm) in
      ground (
        arith,
        take-take n (swap l d n),
        take-swap (suc n) l d n hd (omega arith) hn,
        weigh-take w n (swap m d n) (omega (arith, hm, length-swap m d n hdm hnm)),
        swap-Same m d n hdm hnm w,
        at-swap m d n hdm hnm w n,
        at-get_elem? w m d (get_elem?-take (suc n) l d hd ∙ e),
      )

module _ {F : Type 0} (draw : ℕ → ℕ → ℕ) (bound : InBound draw) where
  abbrev pub Drawn :
      ℕ → ℕ → List (RawAd F) → List (RawAd F) → Run (List (RawAd F) × List (RawAd F)) → Type 0
  Drawn num l raws plist r =
      (plist' : List (RawAd F)) × (raws' : List (RawAd F)) × (r ≡ ok (plist', raws'))
      × (length plist' ≡ length plist + num)
      × ((w : RawAd F → ℕ)
          → weigh w plist' + weigh w (take (l - num) raws') ≡ weigh w plist + weigh w (take l raws))

  pub pick_random-Drawn :
      (num i l : ℕ) (raws plist : List (RawAd F))
      → num ≤ l
      → l ≤ length raws
      → Drawn num l raws plist (pick_random draw num i l raws plist)
  unfolding pick_random
  pick_random-Drawn zero i l raws plist h hl = (plist, raws, refl, omega arith, λ w. ground arith)
  pick_random-Drawn (suc num) i zero raws plist h hl = absurd (omega arith)
  pick_random-Drawn (suc num) i (suc l) raws plist h hl =
      let hd = bound i (suc l) (omega arith) in
      let d = draw i (suc l) in
      let (raw, e) = get_elem?-in raws d (omega arith) in
      let hs = length-swap raws d l (omega arith) (omega arith) in
      let (plist', raws', r, n, same) =
        pick_random-Drawn num (i + 1) l (swap raws d l) (plist ++ raw ∷ []) (omega arith)
          (omega (arith, hs)) in
      (
        plist',
        raws',
        ground (arith, e, r),
        omega (arith, n, length-append plist (raw ∷ [])),
        λ w.
            ground (arith, same w, weigh-append w plist (raw ∷ []), weigh-drawn w l raws d hd hl e),
      )
