-- ===== src/RawAd/Image/Largest.antt =====
-- The size of the picture that GetMaxMatchedImg of raw_ad/raw_ad.go chooses.
use mathlib.Core.Logic.{inl, inr, ◌⊎◌}
use real_api_server.Prelude.{
  ℕ, ◌+◌, String, ◌≡◌, refl, ◌∙◌, Bool, true, ◌||◌, Option, none, some, List, [], ◌∷◌, arith, All,
  Within, Option-cases,
}
use real_api_server.Prelude.Int.{ℤ, pos, minus_one, ◌≤ℤ◌, eqb_ℤ}
use real_api_server.Prelude.Dict.{Dict, lookup}
use real_api_server.Prelude.Float.{Float64}
use real_api_server.RawAd.Image.{
  Img, Best, area, consider, best_of, rule_match, get_max_matched_img,
}

module _ (fits : Img → Bool) (any_size is_rand : Bool) where
  abbrev pub Eligible : Img → Type 0
  Eligible x = (any_size || fits x) ≡ true

  -- What one round does to the best found yet.
  record Considered (img : Img) (b b' : Best) : Type 0 where
    up : b.max_wh ≤ℤ b'.max_wh
    covers : Eligible img → area img ≤ℤ b'.max_wh
    origin :
        ((b'.rc ≡ b.rc) × (b'.max_wh ≡ b.max_wh))
        ⊎ ((b'.rc ≡ some img) × (b'.max_wh ≤ℤ area img) × Eligible img)

  consider_lem :
      (coin : ℕ → Bool) (img : Img) (b : Best)
      → Considered img b (consider fits any_size is_rand coin img b)
  unfolding consider
  consider_lem coin img b = record {
    up = ground arith;
    covers = ground arith;
    origin = ground arith;
  }

  record Found (imgs : List Img) (b r : Best) : Type 0 where
    up : b.max_wh ≤ℤ r.max_wh
    covers : All (λ x. Eligible x → area x ≤ℤ r.max_wh) imgs
    origin :
        ((r.rc ≡ b.rc) × (r.max_wh ≡ b.max_wh))
        ⊎ ((x : Img) × (r.rc ≡ some x) × Within x imgs × (r.max_wh ≤ℤ area x) × Eligible x)

  best_of-Found :
      (coin : ℕ → ℕ → Bool) (i : ℕ) (imgs : List Img) (b : Best)
      → Found imgs b (best_of fits any_size is_rand coin i imgs b)
  unfolding best_of
  best_of-Found coin i [] b = record { up = omega arith; covers = tt; origin = inl (refl, refl) }
  best_of-Found coin i (img ∷ imgs) b =
      let c = consider_lem (coin i) img b in
      let b' = consider fits any_size is_rand (coin i) img b in
      let f = best_of-Found coin (i + 1) imgs b' in
      record {
        up = omega (arith, c.up, f.up);
        covers = ((λ e. omega (arith, c.covers e, f.up)), f.covers);
        origin = elim f.origin [
          | inl (kept, same) ↦ elim c.origin [
            | inl (kept', same') ↦ inl (kept ∙ kept', same ∙ same')
            | inr (new, le, e) ↦ inr (img, kept ∙ new, inl refl, ground arith, e)
          ]
          | inr (x, new, w, le, e) ↦ inr (x, new, inr w, le, e)
        ];
      }

  -- A picture is returned only if it is one of the list and eligible, and none that is eligible is
  -- larger; none is returned only if no eligible picture has an area of 0 or more.
  abbrev pub IsLargest : List Img → Option Img → Type 0
  IsLargest imgs none = All (λ x. Eligible x → area x ≤ℤ minus_one) imgs
  IsLargest imgs (some y) =
      Within y imgs × Eligible y × All (λ x. Eligible x → area x ≤ℤ area y) imgs

  All-le :
      (imgs : List Img) (m n : ℤ)
      → m ≤ℤ n
      → All (λ x. Eligible x → area x ≤ℤ m) imgs
      → All (λ x. Eligible x → area x ≤ℤ n) imgs
  All-le [] m n h a = tt
  All-le (x ∷ imgs) m n h a = ((λ e. omega (arith, a.0 e)), All-le imgs m n h a.1)

  Found-IsLargest :
      (imgs : List Img) (r : Best)
      → Found imgs (record { max_wh = minus_one; rc = none }) r
      → IsLargest imgs r.rc
  Found-IsLargest imgs r f = elim f.origin [
    | inl (empty, same) ↦ rw empty (All-le imgs r.max_wh minus_one (ground arith) f.covers)
    | inr (x, new, w, le, e) ↦ rw new (w, e, All-le imgs r.max_wh (area x) le f.covers)
  ]

-- The pictures of a language, none if it has no entry.
abbrev pub of_lang : Dict (List Img) → String → List Img
of_lang m lang = elim (lookup lang m) [ none ↦ [] | some imgs ↦ imgs ]

-- GetMaxMatchedImg, for every rule and every outcome of the draws: the result is one of the
-- language's pictures that the rule accepts (any picture, if no size is wanted) and none of these is
-- larger, or it is none and none of these has an area of 0 or more.
pub get_max_matched_img-IsLargest :
    (fl : Float64) (coin : ℕ → ℕ → Bool) (m : Dict (List Img)) (lang : String) (w h rule : ℤ)
    (is_rand : Bool)
    → IsLargest
        (λ img. rule_match fl rule img w h)
        (eqb_ℤ w (pos 0) || eqb_ℤ h (pos 0))
        is_rand
        (of_lang m lang)
        (get_max_matched_img fl coin m lang w h rule is_rand)
unfolding get_max_matched_img
get_max_matched_img-IsLargest fl coin m lang w h rule is_rand =
    elim (Option-cases (lookup lang m)) [
      | inl e ↦ rw (of_lang, e, get_max_matched_img) tt
      | inr (imgs, e) ↦
          rw (of_lang, e, get_max_matched_img)
            (Found-IsLargest _ _ is_rand imgs _ (best_of-Found _ _ is_rand coin 0 imgs _))
    ]
