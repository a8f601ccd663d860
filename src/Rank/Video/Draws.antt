-- ===== src/Rank/Video/Draws.antt =====
-- The draws of randomCopy of rank/video/video_rank.go.
use real_api_server.Prelude.{
  ℕ, zero, suc, ◌+◌, ◌≡◌, inl, inr, List, [], ◌∷◌, ◌++◌, arith, length, leb, get_elem?, nat_eq,
  string_eq, Bool-cases, Option-cases, All, All-append_one, All-get_elem, All-set, set, subst,
}
use real_api_server.Prelude.Int.{ℤ, pos, negsuc, ◌≤ℤ◌}
use real_api_server.Prelude.Run.{panic, Gives, Returns, Returns->>=, Returns-of-Gives}
use real_api_server.GoHeap.{swap}
use real_api_server.HttpContext.{Context}
use real_api_server.RawAd.{RawAd}
use real_api_server.Rank.{pick_random}
use real_api_server.Rank.Draw.{InBound, pick_random-Drawn}
use real_api_server.Rank.Video.{random_count, random_videos}

module _ {A : Type 0} (P : A → Type 0) where
  pub All-swap : (l : List A) (i j : ℕ) → All P l → All P (swap l i j)
  unfolding swap
  All-swap l i j h = elim (Option-cases (get_elem? l i)) [
    | inl e ↦ subst (All P) (ground (arith, e)) h
    | inr (x, e) ↦ elim (Option-cases (get_elem? l j)) [
      | inl f ↦ subst (All P) (ground (arith, e, f)) h
      | inr (y, f) ↦
          let same : set (set l i y) j x ≡ swap l i j = ground (arith, e, f) in
          subst (All P) same (
            All-set P (set l i y) j x (All-set P l i y h (All-get_elem P l j h f))
              (All-get_elem P l i h e))
    ]
  ]

module _ {F : Type 0} (P : RawAd F → Type 0) (draw : ℕ → ℕ → ℕ) where
  -- The draws give only offers of the list.
  pick_random-All :
      (num i l : ℕ) (raws plist : List (RawAd F))
      → All P raws
      → All P plist
      → Gives (λ out. All P out.0) (pick_random draw num i l raws plist)
  unfolding pick_random
  pick_random-All zero i l raws plist h q = q
  pick_random-All (suc num) i zero raws plist h q = tt
  pick_random-All (suc num) i (suc l) raws plist h q =
      elim (Option-cases (get_elem? raws (draw i (suc l)))) [
        | inl f ↦
            let stops : panic ≡ pick_random draw (suc num) i (suc l) raws plist =
              ground (arith, f) in
            subst (Gives (λ out. All P out.0)) stops tt
        | inr (raw, f) ↦
            let goes_on : pick_random draw num (i + 1) l (swap raws (draw i (suc l)) l)
                  (plist ++ raw ∷ [])
                ≡ pick_random draw (suc num) i (suc l) raws plist =
              ground (arith, f) in
            subst (Gives (λ out. All P out.0)) goes_on (
              pick_random-All num (i + 1) l (swap raws (draw i (suc l)) l) (plist ++ raw ∷ [])
                (All-swap P raws (draw i (suc l)) l h)
                (All-append_one P plist raw q (All-get_elem P raws (draw i (suc l)) h f)))
      ]

  random_count-All :
      InBound draw
      → (raws : List (RawAd F)) (n : ℤ) → pos 0 ≤ℤ n
      → All P raws
      → Returns (All P) (random_count draw raws n)
  unfolding random_count
  random_count-All bound raws (negsuc n) z h = absurd (omega arith)
  random_count-All bound raws (pos n) z h = elim (Bool-cases (leb (length raws) n)) [
    | inl e ↦ rw (e, Returns) h
    | inr e ↦
        let drawn =
          pick_random-Drawn draw bound n 0 (length raws) raws [] (ground (arith, e))
            (omega arith) in
        let returned =
          Returns-of-Gives (λ (out : List (RawAd F) × List (RawAd F)). All P out.0)
            (pick_random draw n 0 (length raws) raws [])
            (pick_random-All n 0 (length raws) raws [] h tt) drawn.2 in
        rw (e, Returns)
          (Returns->>= (λ out. All P out.0) (All P) (pick_random draw n 0 (length raws) raws []) _
            returned (λ v q. q))
  ]

  pub random_videos-All :
      InBound draw
      → (raws : List (RawAd F)) (ctx : Context) → pos 0 ≤ℤ ctx.ad_num
      → All P raws
      → Returns (All P) (random_videos draw raws ctx)
  unfolding random_videos
  random_videos-All bound raws ctx z h = random_count-All bound raws ctx.ad_num z h
