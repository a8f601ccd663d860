-- ===== src/HttpContext/Freq.antt =====
-- The frequency caps of http_context/http_context.go.
use real_api_server.Prelude.{
  ℕ, String, Bool, refl, ◌≡◌, ◌↔◌, ◌⊎◌, true, false, ◌&&◌, Option, none, some, arith, ◌==◌, nat_eq,
  string_eq, if◌then◌else◌, Bool-cases, Option-cases, inl, inr,
}
use real_api_server.Prelude.Int.{ℤ, ◌≤ℤ◌}
use real_api_server.Prelude.Dict.{Dict, lookup}
use real_api_server.HttpContext.{
  CacheReads, get_freq, is_wugan, is_rewarded_video, Context, in_freq_cap, pre_click_in_freq_cap,
}

-- The count that a map, which may be nil, holds for a key.
abbrev pub count_of : String → Option (Dict ℤ) → Option ℤ
count_of key none = none
count_of key (some m) = lookup key m

-- The key is counted, with at least the limitation.
abbrev pub Reached : ℤ → Option ℤ → Type 0
Reached limitation none = ⊥
Reached limitation (some cnt) = limitation ≤ℤ cnt

-- InFreqCap refuses a key exactly when the request is not an app wall and the key is counted with
-- at least the limitation; it calls a key first exactly when it is an app wall or not counted.
pub in_freq_cap_exact :
    (ctx : Context) (key : String) (limitation : ℤ)
    → (((in_freq_cap ctx key limitation).0 ≡ false)
        ↔ ((ctx.integral_wall ≡ false) × Reached limitation (count_of key ctx.freq_info.freq_map)))
      × (((in_freq_cap ctx key limitation).1 ≡ true)
          ↔ ((ctx.integral_wall ≡ true) ⊎ (count_of key ctx.freq_info.freq_map ≡ none)))
unfolding in_freq_cap
in_freq_cap_exact ctx key limitation = elim (Bool-cases ctx.integral_wall) [
  | inl wall ↦ rw wall (ground arith)
  | inr other ↦ rw other (elim (Option-cases ctx.freq_info.freq_map) [
    | inl e ↦ rw e (ground arith)
    | inr (m, e) ↦ rw e (elim (Option-cases (lookup key m)) [
      | inl e' ↦ rw e' (ground arith)
      | inr (cnt, e') ↦ rw e' (ground arith)
    ])
  ])
]

-- PreClickInFreqCap refuses a key exactly when it is counted with at least the limitation.
pub pre_click_in_freq_cap_exact :
    (ctx : Context) (key : String) (limitation : ℤ)
    → (pre_click_in_freq_cap ctx key limitation ≡ false)
      ↔ Reached limitation (count_of key ctx.freq_info.p_freq_map)
unfolding pre_click_in_freq_cap
pre_click_in_freq_cap_exact ctx key limitation = elim (Option-cases ctx.freq_info.p_freq_map) [
  | inl e ↦ rw e (ground arith)
  | inr (m, e) ↦ rw e (elim (Option-cases (lookup key m)) [
    | inl e' ↦ rw e' (ground arith)
    | inr (cnt, e') ↦ rw e' (ground arith)
  ])
]

-- The number of seconds after which a pre-click counter starts anew.
abbrev pub period : Context → ℕ
period ctx = if ctx.country == "CN" && ctx.platform == "iOS" then 43200 else 86400

-- GetFreq leaves the slot, the platform, the number of ads, the sizes and the creatives of the client.
abbrev pub Kept : Context → Context → Type 0
Kept ctx c =
    (c.slot_id ≡ ctx.slot_id)
    × (c.platform ≡ ctx.platform)
    × (c.ad_num ≡ ctx.ad_num)
    × (c.cid_map ≡ ctx.cid_map)

Kept-if :
    (ctx : Context) (b : Bool) (x y : Context)
    → Kept ctx x
    → Kept ctx y
    → Kept ctx (if b then x else y)
Kept-if ctx true x y h k = h
Kept-if ctx false x y h k = k

pub get_freq-Kept : (reads : CacheReads) (ctx : Context) → Kept ctx (get_freq reads ctx)
unfolding get_freq
get_freq-Kept reads ctx =
    Kept-if ctx (is_wugan ctx) _ _ (refl, refl, refl, refl)
      (Kept-if ctx (is_rewarded_video ctx) _ _ (refl, refl, refl, refl) (refl, refl, refl, refl))
