-- ===== src/Retrieval/Fuyu/Unique.antt =====
-- The offers that retrieval/fuyu.go lists.
use real_api_server.Prelude.{
  All-take, ℕ, zero, suc, ◌≤◌, String, ◌≡◌, ◌≢◌, inl, inr, refl, Bool, true, false, List, [], ◌∷◌,
  ◌++◌, arith, length, length-take, take, eq_iff, string_eq, if◌then◌else◌, Bool-cases, All, Within,
  ltb,
}
use real_api_server.RawAd.{RawAd, has_key}
use real_api_server.Retrieval.Fuyu.{uniq_by_pkg, fuyu_raws}

module _ {F : Type 0} where
  -- No two offers of one package.
  abbrev pub OnePerPkg : List (RawAd F) → Type 0
  OnePerPkg [] = Unit
  OnePerPkg (r ∷ rs) = All (λ s. s.pkg_name ≢ r.pkg_name) rs × OnePerPkg rs

  -- Every offer of the result is one of the list, and its package is not used before.
  abbrev Fresh : List String → List (RawAd F) → List (RawAd F) → Type 0
  Fresh used docs rs = All (λ r. Within r docs × (has_key r.pkg_name used ≡ false)) rs

  Fresh-weaken :
      (used : List String) (p : String) (d : RawAd F) (docs rs : List (RawAd F))
      → Fresh (p ∷ used) docs rs
      → Fresh used (d ∷ docs) rs
  unfolding has_key
  Fresh-weaken used p d docs [] h = tt
  Fresh-weaken used p d docs (r ∷ rs) ((w, n), h) =
      ((inr w, ground (arith, n)), Fresh-weaken used p d docs rs h)

  Fresh-more :
      (used : List String) (d : RawAd F) (docs rs : List (RawAd F))
      → Fresh used docs rs
      → Fresh used (d ∷ docs) rs
  Fresh-more used d docs [] h = tt
  Fresh-more used d docs (r ∷ rs) ((w, n), h) = ((inr w, n), Fresh-more used d docs rs h)

  others_of_Fresh :
      (used : List String) (d : RawAd F) (docs rs : List (RawAd F))
      → Fresh (d.pkg_name ∷ used) docs rs
      → All (λ s. s.pkg_name ≢ d.pkg_name) rs
  unfolding has_key
  others_of_Fresh used d docs [] h = tt
  others_of_Fresh used d docs (r ∷ rs) ((w, n), h) =
      ((λ q. ground (arith, n, q, eq_iff d.pkg_name r.pkg_name)), others_of_Fresh used d docs rs h)

  uniq_by_pkg-Fresh :
      (used : List String) (docs : List (RawAd F))
      → Fresh used docs (uniq_by_pkg used docs) × OnePerPkg (uniq_by_pkg used docs)
  unfolding uniq_by_pkg
  uniq_by_pkg-Fresh used [] = (tt, tt)
  uniq_by_pkg-Fresh used (d ∷ docs) = elim (Bool-cases (has_key d.pkg_name used)) [
    | inl e ↦
        let (f, o) = uniq_by_pkg-Fresh used docs in
        rw e (Fresh-more used d docs (uniq_by_pkg used docs) f, o)
    | inr e ↦
        let next = d.pkg_name ∷ used in
        let (f, o) = uniq_by_pkg-Fresh next docs in
        rw e (
          (
            ((inl refl, e), Fresh-weaken used d.pkg_name d docs (uniq_by_pkg next docs) f),
            (others_of_Fresh used d docs (uniq_by_pkg next docs) f, o),
          ))
  ]

  Fresh-Within :
      (used : List String) (docs rs : List (RawAd F))
      → Fresh used docs rs
      → All (λ r. Within r docs) rs
  Fresh-Within used docs [] h = tt
  Fresh-Within used docs (r ∷ rs) ((w, n), h) = (w, Fresh-Within used docs rs h)

  taken : (n : ℕ) (rs : List (RawAd F)) → OnePerPkg rs → OnePerPkg (take n rs)
  taken zero rs h = tt
  taken (suc n) [] h = tt
  taken (suc n) (r ∷ rs) (a, h) = (All-take (λ s. s.pkg_name ≢ r.pkg_name) n rs a, taken n rs h)

  abbrev cut : ℕ → List (RawAd F) → List (RawAd F)
  cut n rs = if ltb n (length rs) then take n rs else rs

  cut_lem :
      (n : ℕ) (rs docs : List (RawAd F))
      → OnePerPkg rs
      → All (λ r. Within r docs) rs
      → OnePerPkg (cut n rs) × All (λ r. Within r docs) (cut n rs) × (length (cut n rs) ≤ n)
  cut_lem n rs docs o w = elim (Bool-cases (ltb n (length rs))) [
    | inl e ↦
        rw e (taken n rs o, All-take (λ r. Within r docs) n rs w, omega (arith, length-take n rs))
    | inr e ↦ rw e (o, w, ground (arith, e))
  ]

  searched_lem :
      (b : Bool) (docs rs : List (RawAd F))
      → All (λ r. Within r (if b then docs else [])) rs
      → All (λ r. Within r docs) rs
  searched_lem true docs rs h = h
  searched_lem false docs [] h = tt
  searched_lem false docs (r ∷ rs) (w, h) = absurd w

  -- The offers that getFuyuAds lists are two blocks, the offline offers first. In each block no two
  -- offers are of one package and every offer is a result of its search, and the second block has
  -- at most adNum offers, none if adNum is 0.
  pub fuyu_raws-OnePerPkg :
      (ad_num : ℕ) (docs offline_docs : List (RawAd F))
      → (offline : List (RawAd F)) × (fuyu : List (RawAd F)) × (fuyu_raws ad_num docs offline_docs
          ≡ offline ++ fuyu)
        × OnePerPkg offline
        × All (λ r. Within r offline_docs) offline
        × OnePerPkg fuyu
        × All (λ r. Within r docs) fuyu
        × (length fuyu ≤ ad_num)
  unfolding fuyu_raws
  fuyu_raws-OnePerPkg ad_num docs offline_docs =
      let searched = if ltb 0 ad_num then docs else [] in
      let (f, o) = uniq_by_pkg-Fresh [] offline_docs in
      let (f', o') = uniq_by_pkg-Fresh [] searched in
      let (o'', w, short) = cut_lem ad_num (uniq_by_pkg [] searched) docs o' (
        searched_lem (ltb 0 ad_num) docs (uniq_by_pkg [] searched)
          (Fresh-Within [] searched (uniq_by_pkg [] searched) f')) in
      (
        uniq_by_pkg [] offline_docs,
        cut ad_num (uniq_by_pkg [] searched),
        refl,
        o,
        Fresh-Within [] offline_docs (uniq_by_pkg [] offline_docs) f,
        o'',
        w,
        short,
      )
