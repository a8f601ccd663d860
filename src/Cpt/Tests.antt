-- ===== src/Cpt/Tests.antt =====
-- A concrete media.
use real_api_server.Prelude.{
  ℕ, ◌≡◌, ◌≤◌, ◌<◌, length, ◌⊎◌, refl, Bool, true, false, some, [], ◌∷◌, All, if◌then◌else◌,
  Bool-cases, inl, inr,
}
use real_api_server.Prelude.Int.{ℤ, pos}
use real_api_server.Prelude.Dict.{Dict, lookup}
use real_api_server.HttpContext.{is_wugan}
use real_api_server.RawAd.{RawAd}
use real_api_server.Cpt.{Media, Handler, get_cpt_docs}
use real_api_server.Cpt.Sizes.{Refused, sized_for, Shown, Sound, get_cpt_docs-Shown}
use real_api_server.Samples.{whole_floats, request, offer}

abbrev banner : Media
banner = record {
  offers = ("a", true) ∷ [];
  slots = ("77", record { img_h = pos 0; img_w = pos 0 }) ∷ [];
  start_time = 0;
  end_time = 2000;
}

abbrev media_map : Dict Media
media_map = ("77", banner) ∷ []

abbrev no_coin : ℕ → ℕ → Bool
no_coin i n = false

abbrev attr : ℕ → RawAd ℤ
attr d = offer "a" false

-- An index with one document.
abbrev search : Handler whole_floats
search conds f = if f (attr 1) then 1 ∷ [] else []

search-Sound : Sound whole_floats no_coin no_coin attr search
search-Sound conds f = elim (Bool-cases (f (attr 1))) [ inl e ↦ rw e (refl, tt) | inr e ↦ rw e tt ]

get_cpt_docs-Shown_example :
    ((get_cpt_docs whole_floats no_coin no_coin (some search) media_map [] request ≡ ([], request))
      × Refused whole_floats no_coin no_coin search media_map [] request)
    ⊎ ((is_wugan request ≡ false)
        × (media : Media) × (lookup request.slot_id media_map ≡ some media)
        × (media.start_time ≤ request.now)
        × (request.now ≤ media.end_time)
        × (0
            < length
                (get_cpt_docs whole_floats no_coin no_coin (some search) media_map [] request).0)
        × ((get_cpt_docs whole_floats no_coin no_coin (some search) media_map [] request).1
            ≡ sized_for media request)
        × All
            (λ d. Shown whole_floats no_coin no_coin media (sized_for media request) (attr d))
            (get_cpt_docs whole_floats no_coin no_coin (some search) media_map [] request).0)
get_cpt_docs-Shown_example =
    get_cpt_docs-Shown whole_floats no_coin no_coin attr search media_map [] request search-Sound
