-- ===== src/Rank/Copy.antt =====
-- The number of offers that randomCopy of rank/rank.go gives.
use real_api_server.Prelude.{
  ℕ, ◌+◌, ◌<◌, ◌≡◌, refl, Bool, true, false, not, List, [], ◌∷◌, ◌++◌, arith, length, length-append,
  ltb, leb, min, if◌then◌else◌, All, Within,
}
use real_api_server.Prelude.Int.{pos}
use real_api_server.HttpContext.{Context}
use real_api_server.RawAd.{RawAd}
use real_api_server.Rank.{copy_white, copy_others, random_copy}

module _ {F : Type 0} where
  -- The number of white offers, or of the others.
  unfoldable pub count_white : Bool → List (RawAd F) → ℕ
  count_white b [] = 0
  count_white b (raw ∷ raws) =
      (if (if raw.is_t then b else not b) then 1 else 0) + count_white b raws

  count_white_all :
      (raws : List (RawAd F)) → count_white true raws + count_white false raws ≡ length raws
  unfolding count_white
  count_white_all [] = refl
  count_white_all (raw ∷ raws) = ground (arith, count_white_all raws)

  length-copy_white :
      (n : ℕ) (raws plist : List (RawAd F))
      → length plist < n
      → length (copy_white (pos n) raws plist) ≡ min n (length plist + count_white true raws)
  unfolding copy_white count_white
  length-copy_white n [] plist h = omega arith
  length-copy_white n (raw ∷ raws) plist h = ground (
    arith,
    length-append plist (raw ∷ []),
    length-copy_white n raws (if raw.is_t then plist ++ raw ∷ [] else plist),
  )

  length-copy_others :
      (n : ℕ) (raws plist : List (RawAd F))
      → length (copy_others (pos n) raws plist) ≡ (
          if ltb (length plist) n
          then min n (length plist + count_white false raws)
          else length plist + min 1 (count_white false raws))
  unfolding copy_others count_white
  length-copy_others n [] plist = ground arith
  length-copy_others n (raw ∷ raws) plist = ground (
    arith,
    length-append plist (raw ∷ []),
    length-copy_others n raws (if raw.is_t then plist else plist ++ raw ∷ []),
  )

  -- randomCopy gives the whole list if no more than AdNum offers stand in it. Else it gives exactly
  -- AdNum offers if fewer than AdNum of them are white; and if at least AdNum are white, it gives
  -- AdNum offers, or one more than AdNum if there is an offer that is not white.
  pub length-random_copy :
      (n : ℕ) (raws : List (RawAd F)) (ctx : Context)
      → ctx.ad_num ≡ pos n
      → 0 < n
      → length (random_copy raws ctx).0 ≡ (
          if leb (length raws) n
          then length raws
          else if ltb (count_white true raws) n
          then n
          else n + min 1 (count_white false raws))
  unfolding random_copy
  length-random_copy n raws ctx e h = rw e (
      ground (
        arith,
        count_white_all raws,
        length-copy_white n raws [],
        length-copy_others n raws (copy_white (pos n) raws []),
      ))

  -- Every entry of the first list stands in the second.
  abbrev pub IsFrom : List (RawAd F) → List (RawAd F) → Type 0
  IsFrom out raws = All (λ r. Within r raws) out
