-- ===== src/Retrieval/Wugan.antt =====
-- retrieval/wugan.go: how an answer spreads its ads over the web views.
pub mod Views
use real_api_server.Prelude.{
  ℕ, zero, suc, ◌+◌, ◌/◌, ◌%◌, Bool, true, false, Option, none, some, List, [], ◌∷◌, length,
  get_elem?, ◌==◌, nat_eq, ltb, if◌then◌else◌,
}

-- nWebViews of NewWuganResp
pub n_views : ℕ → ℕ
n_views err_no = if err_no == 0 then 3 else 0

-- adsPerView of WriteTo
pub ads_per_view : ℕ → ℕ → ℕ
ads_per_view total views =
    if ltb 0 views then (if total % views == 0 then total / views else total / views + 1) else 0

module _ {A : Type 0} where
  -- the inner loop: the ads of one view, and nAds after it
  pub fill_view : ℕ → ℕ → List A → List A × ℕ
  fill_view zero n_ads nat_list = ([], n_ads)
  fill_view (suc left) n_ads nat_list = elim (get_elem? nat_list n_ads) [
    | none ↦ ([], n_ads)
    | some a ↦ let (ads, n) = fill_view left (n_ads + 1) nat_list in (a ∷ ads, n)
  ]

  -- the outer loop
  pub fill_views : ℕ → ℕ → ℕ → List A → List (List A)
  unfolding fill_view
  fill_views zero per n_ads nat_list = []
  fill_views (suc views) per n_ads nat_list =
      let (ads, n) = fill_view per n_ads nat_list in ads ∷ fill_views views per n nat_list

  -- resp.AdLists of an answer with the error number
  pub ad_lists : ℕ → List A → List (List A)
  unfolding n_views ads_per_view fill_views
  ad_lists err_no nat_list =
      fill_views (n_views err_no) (ads_per_view (length nat_list) (n_views err_no)) 0 nat_list
