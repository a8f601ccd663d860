-- ===== src/RawAd/Image.antt =====
-- The pictures of an offer: the size rules, and the choice of the largest that fits.
-- `coin i n` is the n-th draw of `rand.Int()%2 == 0` at picture i: equal areas may be drawn.
pub mod Largest
use real_api_server.Prelude.{
  ℕ, zero, suc, ◌+◌, String, Bool, true, false, not, ◌&&◌, ◌||◌, Option, none, some, List, [], ◌∷◌,
  if◌then◌else◌, is_some, ◌==◌, string_eq, length, nat_eq,
}
use real_api_server.Prelude.Int.{ℤ, pos, negsuc, minus_one, ◌+ℤ◌, ◌*ℤ◌, eqb_ℤ, ltb_ℤ, leb_ℤ}
use real_api_server.Prelude.Dict.{Dict, lookup}
use real_api_server.Prelude.Float.{Float64}

pub record Img : Type 0 where
  pub id : String
  pub old_id : String
  pub width : ℤ
  pub height : ℤ
  pub url : String
  pub lang : String

unfoldable pub exact_match : Img → ℤ → ℤ → Bool
exact_match img w h = eqb_ℤ img.width w && eqb_ℤ img.height h

module _ (fl : Float64) where
  open fl use {of_int, to_int, add, sub, mul, div, abs, less, at_most, literal}

  unfoldable pub laplace_smooth : ℤ → ℤ → fl.F
  laplace_smooth w h = div (of_int (w +ℤ pos 1)) (of_int (h +ℤ pos 1))

  -- float64(w)/float64(h), with both one larger if h is 0
  abbrev ratio_of : ℤ → ℤ → fl.F
  ratio_of w h =
      if eqb_ℤ h (pos 0)
      then div (of_int (w +ℤ pos 1)) (of_int (h +ℤ pos 1))
      else div (of_int w) (of_int h)

  pub ratio_fuzzy_match : Img → ℤ → ℤ → fl.F → Bool
  ratio_fuzzy_match img w h bias =
      at_most (abs (sub (ratio_of w h) (div (of_int img.width) (of_int img.height)))) bias

  pub ratio_match : Img → ℤ → ℤ → Bool
  unfolding ratio_fuzzy_match
  ratio_match img w h = ratio_fuzzy_match img w h (literal 1 1000)

  -- w and h are within the bias of the picture's width and height
  abbrev within_bias : Img → ℤ → ℤ → fl.F → Bool
  within_bias img w h bias =
      let upper = add (literal 1 1) bias in
      let lower = sub (literal 1 1) bias in
      leb_ℤ (to_int (mul (of_int img.width) lower)) w
      && (leb_ℤ w (to_int (mul (of_int img.width) upper))
          && (leb_ℤ (to_int (mul (of_int img.height) lower)) h
              && leb_ℤ h (to_int (mul (of_int img.height) upper))))

  pub abs_fuzzy_match : Img → ℤ → ℤ → fl.F → Bool
  unfolding laplace_smooth
  abs_fuzzy_match img w h bias =
      if less (literal 1 1000)
        (abs (sub (laplace_smooth w h) (laplace_smooth img.width img.height)))
      then false
      else within_bias img w h bias

  -- the bounds are compared with the w and h that the test for h = 0 leaves
  pub fuzzy_match : Img → ℤ → ℤ → fl.F → fl.F → Bool
  fuzzy_match img w h ratio_bias abs_bias =
      let w' = if eqb_ℤ h (pos 0) then w +ℤ pos 1 else w in
      let h' = if eqb_ℤ h (pos 0) then h +ℤ pos 1 else h in
      if less ratio_bias
        (abs (sub (div (of_int w') (of_int h')) (div (of_int img.width) (of_int img.height))))
      then false
      else within_bias img w' h' abs_bias

  -- the `switch rule`; no other rule fits anything
  pub rule_match : ℤ → Img → ℤ → ℤ → Bool
  unfolding exact_match ratio_fuzzy_match ratio_match abs_fuzzy_match fuzzy_match
  rule_match rule img w h =
      if eqb_ℤ rule (negsuc 1)
      then ratio_fuzzy_match img w h (literal 1 5)
      else if eqb_ℤ rule (negsuc 0)
      then ratio_match img w h
      else if eqb_ℤ rule (pos 1)
      then exact_match img w h
      else if eqb_ℤ rule (pos 2)
      then abs_fuzzy_match img w h (literal 1 5)
      else if eqb_ℤ rule (pos 3)
      then fuzzy_match img w h (literal 1 5) (literal 1 5)
      else false

-- maxWH and rc of the loop
pub record Best : Type 0 where
  pub max_wh : ℤ
  pub rc : Option Img

abbrev pub area : Img → ℤ
area img = img.width *ℤ img.height

-- toUpdate
pub to_update : Bool → Bool → Img → ℤ → Bool × ℤ
to_update is_rand coin img cur =
    if is_rand && eqb_ℤ (area img) cur
    then (coin, cur)
    else if ltb_ℤ cur (area img)
    then (true, area img)
    else (false, cur)

-- if toUpdate(img, &maxWH) { rc = img }
pub offer_img : Bool → Bool → Img → Best → Best
unfolding to_update
offer_img is_rand coin img b =
    let (take_it, cur) = to_update is_rand coin img b.max_wh in
    record { max_wh = cur; rc = if take_it then some img else b.rc }

-- One round of the loop, with the test `fits` of the rule. Without a wanted size the picture is
-- offered; one that is not taken then goes on to the switch, as in the source.
pub consider : (Img → Bool) → Bool → Bool → (ℕ → Bool) → Img → Best → Best
unfolding to_update offer_img
consider fits any_size is_rand coin img b =
    let first = to_update is_rand (coin 0) img b.max_wh in
    let switch = if fits img then offer_img is_rand (coin 1) img b else b in
    if any_size
    then (if first.0 then record { max_wh = first.1; rc = some img } else switch)
    else switch

pub best_of : (Img → Bool) → Bool → Bool → (ℕ → ℕ → Bool) → ℕ → List Img → Best → Best
unfolding consider
best_of fits any_size is_rand coin i [] b = b
best_of fits any_size is_rand coin i (img ∷ imgs) b =
    best_of fits any_size is_rand coin (i + 1) imgs (consider fits any_size is_rand (coin i) img b)

module _ (fl : Float64) where
  pub get_max_matched_img :
      (ℕ → ℕ → Bool) → Dict (List Img) → String → ℤ → ℤ → ℤ → Bool → Option Img
  unfolding rule_match best_of
  get_max_matched_img coin m lang w h rule is_rand = elim (lookup lang m) [
    | none ↦ none
    | some imgs ↦
        (best_of (λ img. rule_match fl rule img w h) (eqb_ℤ w (pos 0) || eqb_ℤ h (pos 0)) is_rand
          coin 0 imgs (record { max_wh = minus_one; rc = none })).rc
  ]
