-- ===== src/RawAd/Videos/Orientation.antt =====
-- The video that TryGetMatchedVideo of raw_ad/raw_ad.go takes.
use real_api_server.Prelude.{
  ℕ, ◌≡◌, ◌≢◌, ◌⊎◌, inl, inr, refl, true, false, Option, none, some, List, [], ◌∷◌, arith, eq_iff,
  ◌==◌, string_eq, Bool-cases, All, Within,
}
use real_api_server.RawAd.Videos.{Video, oriented, try_videos}

-- A video without url, or of the other orientation.
abbrev pub Unfit : ℕ → Video → Type 0
Unfit rule v = (v.url ≡ "") ⊎ (oriented rule v ≡ false)

-- The best of the videos: none if none has a url, else one with a url, and one of the wanted
-- orientation if there is any.
abbrev pub IsBest : ℕ → List Video → Option Video → Type 0
IsBest rule videos none = All (λ v. v.url ≡ "") videos
IsBest rule videos (some y) =
    Within y videos × (y.url ≢ "") × ((oriented rule y ≡ true) ⊎ All (Unfit rule) videos)

-- The loop with a candidate ends with it, or with a video of the wanted orientation.
abbrev After : ℕ → List Video → Video → Video → Type 0
After rule videos c y =
    ((y ≡ c) × All (Unfit rule) videos)
    ⊎ (Within y videos × (y.url ≢ "") × (oriented rule y ≡ true))

After-skip :
    (rule : ℕ) (v : Video) (videos : List Video) (c y : Video)
    → Unfit rule v
    → After rule videos c y
    → After rule (v ∷ videos) c y
After-skip rule v videos c y u (inl (e, all)) = inl (e, (u, all))
After-skip rule v videos c y u (inr (w, n, o)) = inr (inr w, n, o)

try_videos-After :
    (rule : ℕ) (c : Video) (videos : List Video)
    → (y : Video) × (try_videos rule (some c) videos ≡ some y) × After rule videos c y
unfolding try_videos
try_videos-After rule c [] = (c, refl, inl (refl, tt))
try_videos-After rule c (v ∷ videos) =
    let (y, e, a) = try_videos-After rule c videos in
    elim (Bool-cases (v.url == "")) [
      | inl u ↦ (y, rw u e, After-skip rule v videos c y (inl ((eq_iff v.url "").0 u)) a)
      | inr u ↦ elim (Bool-cases (oriented rule v)) [
        | inl o ↦ (v, rw (u, o), inr (inl refl, (λ q. ground (arith, u, q, eq_iff v.url "")), o))
        | inr o ↦ (y, rw (u, o) e, After-skip rule v videos c y (inr o) a)
      ]
    ]

-- The loop of TryGetMatchedVideo gives none only if no video has a url. Else it gives one of the
-- videos that has a url, and of the wanted orientation if there is one.
pub try_videos-IsBest :
    (rule : ℕ) (videos : List Video) → IsBest rule videos (try_videos rule none videos)
unfolding try_videos
try_videos-IsBest rule [] = tt
try_videos-IsBest rule (v ∷ videos) =
    let (y, e, a) = try_videos-After rule v videos in
    let rest = try_videos-IsBest rule videos in
    elim (Bool-cases (v.url == "")) [
      | inl u ↦ rw u (skip (try_videos rule none videos) ((eq_iff v.url "").0 u) rest)
      | inr u ↦ elim (Bool-cases (oriented rule v)) [
        | inl o ↦ rw (u, o) (inl refl, (λ q. ground (arith, u, q, eq_iff v.url "")), inl o)
        | inr o ↦ rw (u, o, e) (later y u o a)
      ]
    ]
  where
    skip : (r : Option Video) → v.url ≡ "" → IsBest rule videos r → IsBest rule (v ∷ videos) r
    skip none u all = (u, all)
    skip (some y) u (w, n, inl o) = (inr w, n, inl o)
    skip (some y) u (w, n, inr all) = (inr w, n, inr (inl u, all))

    later :
        (y : Video)
        → (v.url == "") ≡ false
        → oriented rule v ≡ false
        → After rule videos v y
        → IsBest rule (v ∷ videos) (some y)
    later y u o (inl (e, all)) =
        (inl e, (λ q. ground (arith, u, q, e, eq_iff v.url "")), inr (inr o, all))
    later y u o (inr (w, n, o')) = (inr w, n, inl o')
