-- ===== src/RawAd/Media/Creative.antt =====
-- raw_ad/raw_ad.go: getMatchedCreative, the picture of an offer for the size that a request asks for.
use real_api_server.Prelude.{
  ℕ, ◌/◌, ◌%◌, String, Bool, true, Option, none, some, List, [], ◌∷◌, ◌==◌, string_eq,
  if◌then◌else◌,
}
use real_api_server.Prelude.Int.{ℤ, pos}
use real_api_server.Prelude.Float.{Float64}
use real_api_server.RawAd.{RawAd}
use real_api_server.RawAd.Image.{Img, laplace_smooth, get_max_matched_img}
use real_api_server.RawAd.Media.{or_else}

module _ (fl : Float64) where
  -- the loop over the rendered pictures: the last that is nearer than all before it
  unfoldable pub nearest_render : fl.F → List (ℕ × String) → fl.F → Option Img → Option Img
  nearest_render ratio [] delta chosen = chosen
  nearest_render ratio ((size, url) ∷ rest) delta chosen =
      let rw : ℤ = pos (size / 10000) in
      let rh : ℤ = pos (size % 10000) in
      let new_delta = fl.abs (fl.sub (laplace_smooth fl rw rh) ratio) in
      let nearer = fl.less new_delta delta in
      nearest_render ratio rest (if nearer then new_delta else delta) (
        if nearer
        then some
            (record { id = ""; old_id = ""; width = rw; height = rh; url = url; lang = "ALL" })
        else chosen)

  -- the picture of the offer itself; the second call of GetMaxMatchedImg draws by `coin'`
  unfoldable pub own_creative :
      (ℕ → ℕ → Bool) → (ℕ → ℕ → Bool) → RawAd fl.F → String → ℤ → ℤ → ℤ → Option Img
  own_creative coin coin' raw lang w h rule =
      or_else (get_max_matched_img fl coin raw.creatives lang w h rule true) (
        if lang == "ALL"
        then none
        else get_max_matched_img fl coin' raw.creatives "ALL" w h rule true)

  -- getMatchedCreative
  unfoldable pub get_matched_creative :
      (ℕ → ℕ → Bool) → (ℕ → ℕ → Bool) → RawAd fl.F → String → ℤ → ℤ → ℤ → Option Img
  unfolding own_creative nearest_render
  get_matched_creative coin coin' raw lang w h rule =
      let creative = own_creative coin coin' raw lang w h rule in
      let ratio = laplace_smooth fl w h in
      let creative_ratio : fl.F = elim creative [
        | none ↦ fl.literal 65535 1
        | some img ↦ laplace_smooth fl img.width img.height
      ] in
      or_else (nearest_render ratio raw.render_imgs (fl.abs (fl.sub ratio creative_ratio)) none)
        creative
