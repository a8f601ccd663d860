-- ===== src/Retrieval/Wugan/Views.antt =====
-- The ads in the web views of retrieval/wugan.go.
use real_api_server.Prelude.{
  ℕ, zero, suc, ◌+◌, ◌*◌, ◌%◌, ◌≤◌, ◌≡◌, refl, ap, sym, ◌∙◌, none, some, List, [], ◌∷◌, ◌++◌, arith,
  length, get_elem?, drop, All, Option-cases, Bool-cases, ◌≢◌, inl, inr, ◌⊎◌, ◌==◌, nat_eq,
}
use real_api_server.Retrieval.Wugan.{n_views, ads_per_view, fill_view, fill_views, ad_lists}

enough_per_view : (n : ℕ) → n ≤ 0 + 3 * ads_per_view n 3
unfolding ads_per_view
enough_per_view n = elim (Bool-cases (n % 3 == 0)) [
  | inl e ↦ ground (arith, e)
  | inr e ↦ rw e (omega arith)
]

module _ {A : Type 0} where
  -- All views one after the other.
  abbrev pub flatten : List (List A) → List A
  flatten [] = []
  flatten (v ∷ views) = v ++ flatten views

  get_elem?-drop : (n : ℕ) (l : List A) → get_elem? l n ≡ none → drop n l ≡ []
  get_elem?-drop zero [] e = refl
  get_elem?-drop zero (x ∷ l) e = ground (arith, e)
  get_elem?-drop (suc n) [] e = refl
  get_elem?-drop (suc n) (x ∷ l) e = get_elem?-drop n l e

  drop_here : (n : ℕ) (l : List A) {a : A} → get_elem? l n ≡ some a → drop n l ≡ a ∷ drop (suc n) l
  drop_here zero [] e = ground (arith, e)
  drop_here zero (x ∷ l) e = ground (arith, e)
  drop_here (suc n) [] e = ground (arith, e)
  drop_here (suc n) (x ∷ l) e = drop_here n l e

  end_le : (n : ℕ) (l : List A) → get_elem? l n ≡ none → length l ≤ n
  end_le zero [] e = omega arith
  end_le zero (x ∷ l) e = ground (arith, e)
  end_le (suc n) [] e = omega arith
  end_le (suc n) (x ∷ l) e = omega (arith, end_le n l e)

  fill_view_end :
      (left n : ℕ) (l : List A) → get_elem? l n ≡ none → fill_view (suc left) n l ≡ ([], n)
  unfolding fill_view
  fill_view_end left n l e = ground (arith, e)

  fill_view_more :
      (left n : ℕ) (l : List A) {a : A}
      → get_elem? l n ≡ some a
      → fill_view (suc left) n l ≡ (a ∷ (fill_view left (n + 1) l).0, (fill_view left (n + 1) l).1)
  unfolding fill_view
  fill_view_more left n l e = ground (arith, e)

  fill_view-take :
      (left n : ℕ) (l : List A)
      → ((fill_view left n l).0 ++ drop (fill_view left n l).1 l ≡ drop n l)
        × (length (fill_view left n l).0 ≤ left)
        × ((length l ≤ (fill_view left n l).1) ⊎ ((fill_view left n l).1 ≡ n + left))
  fill_view-take zero n l = unfold fill_view in (refl, omega arith, inr (omega arith))
  fill_view-take (suc left) n l = elim (Option-cases (get_elem? l n)) [
    | inl e ↦ rw (fill_view_end left n l e) (refl, omega arith, inl (end_le n l e))
    | inr (a, e) ↦
        let (eq, small, rest) = fill_view-take left (n + 1) l in
        let next : n + 1 ≡ suc n = omega arith in
        rw (fill_view_more left n l e) (
          ap (λ t. a ∷ t) (eq ∙ ap (λ t. drop t l) next) ∙ sym (drop_here n l e),
          omega (arith, small),
          elim rest [ inl p ↦ inl p | inr q ↦ inr (omega (arith, q)) ],
        )
  ]

  drop_all : (n : ℕ) (l : List A) → length l ≤ n → drop n l ≡ []
  drop_all zero [] h = refl
  drop_all zero (x ∷ l) h = absurd (omega (arith, h))
  drop_all (suc n) [] h = refl
  drop_all (suc n) (x ∷ l) h = drop_all n l (omega (arith, h))

  fill_views-drop :
      (views per n : ℕ) (l : List A)
      → length l ≤ n + views * per
      → (flatten (fill_views views per n l) ≡ drop n l)
        × (length (fill_views views per n l) ≡ views)
        × All (λ v. length v ≤ per) (fill_views views per n l)
  unfolding fill_views
  fill_views-drop zero per n l h = (sym (drop_all n l (omega (arith, h))), refl, tt)
  fill_views-drop (suc views) per n l h =
      let (eq, small, rest) = fill_view-take per n l in
      let enough : length l ≤ (fill_view per n l).1 + views * per = elim rest [
        | inl p ↦ omega (arith, p)
        | inr q ↦ omega (arith, q, h)
      ] in
      let (all_ads, count, smalls) = fill_views-drop views per (fill_view per n l).1 l enough in
      (ap (λ t. (fill_view per n l).0 ++ t) all_ads ∙ eq, ap (λ t. suc t) count, (small, smalls))

  -- An answer without an error has three views. Together they hold the ads of the answer in their
  -- order, each once, and none of them has more than adsPerView. An answer with an error has no view.
  pub ad_lists-flatten :
      (err_no : ℕ) (ads : List A)
      → ((err_no ≡ 0)
          × (flatten (ad_lists err_no ads) ≡ ads)
          × (length (ad_lists err_no ads) ≡ 3)
          × All (λ v. length v ≤ ads_per_view (length ads) 3) (ad_lists err_no ads))
        ⊎ ((err_no ≢ 0) × (ad_lists err_no ads ≡ []))
  unfolding ad_lists n_views fill_views
  ad_lists-flatten err_no ads = elim (Bool-cases (err_no == 0)) [
    | inl e ↦
        let n = length ads in
        let (all_ads, count, smalls) =
          fill_views-drop 3 (ads_per_view n 3) 0 ads (enough_per_view n) in
        inl (rw e (ground (arith, e), all_ads, count, smalls))
    | inr e ↦ inr (rw e ((λ q. ground (arith, e, q)), refl))
  ]
