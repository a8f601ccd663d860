-- ===== src/RawAd/Media/Match.antt =====
-- The picture that GetRandMatchedImg of raw_ad/raw_ad.go takes, whatever place is drawn.
use native.Mathlib.Nat.{mod-eq_of_lt, mod-eq-sub-mod}
use real_api_server.Prelude.{
  ℕ, zero, suc, ◌+◌, ◌-◌, ◌%◌, ◌≤◌, ◌<◌, String, ◌≡◌, inl, inr, refl, subst, ◌∙◌, Bool, true, false,
  ◌||◌, Option, none, some, List, [], ◌∷◌, arith, ltb, length, get_elem?, if◌then◌else◌, Bool-cases,
  All, Within,
}
use real_api_server.Prelude.Int.{ℤ, pos, eqb_ℤ}
use real_api_server.Prelude.Dict.{Dict}
use real_api_server.Prelude.Float.{Float64}
use real_api_server.RawAd.Image.{Img, rule_match}
use real_api_server.RawAd.Media.{under, from_place, get_rand_matched_img}

-- The place of round i, after the drawn place r.
place_lem : (i r n : ℕ) → i < n → r < n → (i + r) % n ≡ (if ltb (i + r) n then i + r else i + r - n)
place_lem i r n hi hr = elim (Bool-cases (ltb (i + r) n)) [
  | inl e ↦ rw e (mod-eq_of_lt (ground arith))
  | inr e ↦ rw e (mod-eq-sub-mod (ground arith) ∙ mod-eq_of_lt (omega arith))
]

-- Every place is reached.
place_reached : (k r n : ℕ) → k < n → r < n → (i : ℕ) × (i < n) × ((i + r) % n ≡ k)
place_reached k r n hk hr = elim (Bool-cases (ltb k r)) [
  | inl e ↦ (k + n - r, ground arith, ground (arith, place_lem (k + n - r) r n))
  | inr e ↦ (k - r, ground arith, ground (arith, place_lem (k - r) r n))
]

module _ (fits : Img → Bool) (any_size : Bool) where
  -- One of the pictures that fits, or none if none fits.
  abbrev pub IsMatch : List Img → Option Img → Type 0
  IsMatch imgs none = All (λ x. (any_size || fits x) ≡ false) imgs
  IsMatch imgs (some y) = Within y imgs × ((any_size || fits y) ≡ true)

  All-get_elem :
      (imgs : List Img)
      → ((k : ℕ) (x : Img) → get_elem? imgs k ≡ some x → (any_size || fits x) ≡ false)
      → All (λ x. (any_size || fits x) ≡ false) imgs
  All-get_elem [] h = tt
  All-get_elem (x ∷ imgs) h = (h zero x refl, All-get_elem imgs (λ k y e. h (suc k) y e))

  Within-get_elem : (imgs : List Img) (k : ℕ) (x : Img) → get_elem? imgs k ≡ some x → Within x imgs
  Within-get_elem [] k x e = ground arith
  Within-get_elem (y ∷ imgs) zero x e = inl (ground arith)
  Within-get_elem (y ∷ imgs) (suc k) x e = inr (Within-get_elem imgs k x e)

  place_lt : (imgs : List Img) (k : ℕ) (x : Img) → get_elem? imgs k ≡ some x → k < length imgs
  place_lt [] k x e = ground arith
  place_lt (y ∷ imgs) zero x e = omega arith
  place_lt (y ∷ imgs) (suc k) x e = omega (arith, place_lt imgs k x e)

  place_in : (imgs : List Img) (k : ℕ) → k < length imgs → (x : Img) × (get_elem? imgs k ≡ some x)
  place_in [] k h = absurd (omega arith)
  place_in (y ∷ imgs) zero h = (y, refl)
  place_in (y ∷ imgs) (suc k) h = place_in imgs k (omega arith)

  -- The rounds from i on find a picture that fits, or none of theirs does.
  abbrev Searched : ℕ → List Img → ℕ → ℕ → Option Img → Type 0
  Searched r imgs left i none =
      (j : ℕ) (x : Img)
      → i ≤ j
      → j < i + left
      → get_elem? imgs ((j + r) % length imgs) ≡ some x
      → (any_size || fits x) ≡ false
  Searched r imgs left i (some y) = Within y imgs × ((any_size || fits y) ≡ true)

  Searched-suc :
      (r : ℕ) (imgs : List Img) (left i : ℕ) (x : Img)
      → get_elem? imgs ((i + r) % length imgs) ≡ some x
      → (any_size || fits x) ≡ false
      → (o : Option Img) → Searched r imgs left (i + 1) o
      → Searched r imgs (suc left) i o
  Searched-suc r imgs left i x e f (some y) found = found
  Searched-suc r imgs left i x e f none later = λ j y lo hi ey. elim (Bool-cases (ltb i j)) [
    | inl b ↦ later j y (ground arith) (ground arith) ey
    | inr b ↦
        let same : j ≡ i = ground arith in
        let e' = subst (λ k. get_elem? imgs ((k + r) % length imgs) ≡ some y) same ey in
        ground (arith, e, e', f)
  ]

  from_place_here :
      (r : ℕ) (imgs : List Img) (left i : ℕ) (x : Img)
      → get_elem? imgs ((i + r) % length imgs) ≡ some x
      → from_place fits any_size r imgs (suc left) i
        ≡ (if any_size || fits x then some x else from_place fits any_size r imgs left (i + 1))
  unfolding from_place
  from_place_here r imgs left i x e = ground (arith, e)

  from_place-Searched :
      (r : ℕ) (imgs : List Img) (left i : ℕ)
      → r < length imgs
      → i + left ≤ length imgs
      → Searched r imgs left i (from_place fits any_size r imgs left i)
  from_place-Searched r imgs zero i hr h = unfold from_place in λ j x lo hi e. absurd (omega arith)
  from_place-Searched r imgs (suc left) i hr h =
      let k = (i + r) % length imgs in
      let (x, e) = place_in imgs k (omega arith) in
      let later = from_place-Searched r imgs left (i + 1) hr (omega arith) in
      rw (from_place_here r imgs left i x e) (elim (Bool-cases (any_size || fits x)) [
        | inl f ↦ rw f (Within-get_elem imgs k x e, f)
        | inr f ↦
            rw f (
              Searched-suc r imgs left i x e f (from_place fits any_size r imgs left (i + 1)) later)
      ])

  Searched-IsMatch :
      (r : ℕ) (imgs : List Img) (o : Option Img)
      → r < length imgs
      → Searched r imgs (length imgs) 0 o
      → IsMatch imgs o
  Searched-IsMatch r imgs (some y) hr found = found
  Searched-IsMatch r imgs none hr all = All-get_elem imgs (λ k x e.
      let (i, hi, at_k) = place_reached k r (length imgs) (place_lt imgs k x e) hr in
      all i x (omega arith) (omega arith) (rw at_k e))

  from_place-IsMatch :
      (draw : ℕ) (imgs : List Img)
      → IsMatch imgs (from_place fits any_size (draw % length imgs) imgs (length imgs) 0)
  from_place-IsMatch draw [] = unfold from_place in tt
  from_place-IsMatch draw (y ∷ imgs) =
      let all = y ∷ imgs in
      let r = draw % length all in
      let hr : r < length all = omega arith in
      Searched-IsMatch r all (from_place fits any_size r all (length all) 0) hr
        (from_place-Searched r all (length all) 0 hr (omega arith))

-- GetRandMatchedImg, for every rule and every draw: it returns a picture of the language that the
-- rule accepts (any picture, if no size is wanted), and none only if there is no such picture.
pub get_rand_matched_img-IsMatch :
    (fl : Float64) (draw : ℕ) (m : Dict (List Img)) (lang : String) (w h rule : ℤ)
    → IsMatch
        (λ img. rule_match fl rule img w h)
        (eqb_ℤ w (pos 0) || eqb_ℤ h (pos 0))
        (under lang m)
        (get_rand_matched_img fl draw m lang w h rule)
unfolding get_rand_matched_img
get_rand_matched_img-IsMatch fl draw m lang w h rule =
    from_place-IsMatch (λ img. rule_match fl rule img w h) (eqb_ℤ w (pos 0) || eqb_ℤ h (pos 0)) draw
      (under lang m)
