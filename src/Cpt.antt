-- ===== src/Cpt.antt =====
-- cpt/cpt.go: the offers that are shown for a fixed price in some slots. `parse` is time.Parse with the
-- layout of the file, the handler of the index is a parameter, `none` where there is none; its
-- `search` gives the ids of the offers that fit the conditions and that the given filter admits.
pub mod Sizes
mod Tests
use real_api_server.Prelude.{
  ℕ, String, Bool, true, false, not, ◌&&◌, ◌||◌, Option, none, some, List, [], ◌∷◌, ◌++◌, length,
  ◌==◌, nat_eq, string_eq, ltb, if◌then◌else◌,
}
use real_api_server.Prelude.Int.{ℤ, pos}
use real_api_server.Prelude.Dict.{Dict, lookup, insert}
use real_api_server.Prelude.Run.{Run, ok, panic}
use real_api_server.Prelude.Float.{Float64}
use real_api_server.HttpContext.{Context, is_wugan}
use real_api_server.RawAd.{RawAd}
use real_api_server.RawAd.Media.{has_matched_creative}
use real_api_server.Retrieval.{Cond}

pub record CptSlotInfo : Type 0 where
  pub slot_id : String
  pub img_h : ℤ
  pub img_w : ℤ

pub record CptConfItem : Type 0 where
  pub offers : List String
  pub slots : List CptSlotInfo
  pub start_time : String
  pub end_time : String

pub record MediaSlot : Type 0 where
  pub img_h : ℤ
  pub img_w : ℤ

pub record Media : Type 0 where
  pub offers : Dict Bool
  pub slots : Dict MediaSlot
  pub start_time : ℕ
  pub end_time : ℕ

-- the loop over ci.Offers
pub add_offers : List String → Dict Bool → Dict Bool
unfolding insert
add_offers [] offers = offers
add_offers (oid ∷ oids) offers = add_offers oids (insert oid true offers)

-- me.Slots after the loop over ci.Slots
pub add_slots : List CptSlotInfo → Dict MediaSlot → Dict MediaSlot
unfolding insert
add_slots [] slots = slots
add_slots (s ∷ more) slots =
    add_slots more (insert s.slot_id (record { img_h = s.img_h; img_w = s.img_w }) slots)

-- gMediaMap after the same loop: every slot points to the one media
pub add_media : List CptSlotInfo → Media → Dict Media → Dict Media
unfolding insert
add_media [] me g_media_map = g_media_map
add_media (s ∷ more) me g_media_map = add_media more me (insert s.slot_id me g_media_map)

-- a time that may be left out
pub time_or : (String → Option ℕ) → String → ℕ → Option ℕ
time_or parse text default = if text == "" then some default else parse text

-- initMedia, `none` for an error of time.Parse
pub init_media : (String → Option ℕ) → ℕ → ℕ → CptConfItem → Dict Media → Option (Dict Media)
unfolding time_or add_offers add_slots add_media
init_media parse start_min end_max ci g_media_map = elim (time_or parse ci.start_time start_min) [
  | none ↦ none
  | some start ↦ elim (time_or parse ci.end_time end_max) [
    | none ↦ none
    | some end ↦ some (
        add_media ci.slots
          (record {
            offers = add_offers ci.offers [];
            slots = add_slots ci.slots [];
            start_time = start;
            end_time = end;
          })
          g_media_map)
  ]
]

-- the loop of Init
pub init_all : (String → Option ℕ) → ℕ → ℕ → List CptConfItem → Dict Media → Run (Dict Media)
unfolding init_media
init_all parse start_min end_max [] g_media_map = ok g_media_map
init_all parse start_min end_max (item ∷ cf) g_media_map =
    elim (init_media parse start_min end_max item g_media_map) [
      | none ↦ panic
      | some m ↦ init_all parse start_min end_max cf m
    ]

-- the key `pmt` is among the conditions
pub has_pmt : List Cond → Bool
has_pmt [] = false
has_pmt (cond ∷ conds) = if cond.key == "pmt" then true else has_pmt conds

-- the conditions of the search
pub with_pmt : List Cond → List Cond
unfolding has_pmt
with_pmt conds = if has_pmt conds then conds else conds ++ record { key = "pmt"; val = "true" } ∷ []

-- a slot that is missing has the zero value
abbrev pub slot_of : Media → String → MediaSlot
slot_of media id = elim (lookup id media.slots) [
  | none ↦ record { img_h = pos 0; img_w = pos 0 }
  | some s ↦ s
]

module _ (fl : Float64) where
  abbrev pub Handler : Type 0
  Handler = List Cond → (RawAd fl.F → Bool) → List ℕ

  -- the filter of getCptDocs; the coins are those of GetMaxMatchedImg
  unfoldable pub cpt_filter : (ℕ → ℕ → Bool) → (ℕ → ℕ → Bool) → Media → Context → RawAd fl.F → Bool
  cpt_filter own_lang all_langs media ctx raw = elim (lookup raw.uniq_id media.offers) [
    | none ↦ false
    | some listed ↦
        if not listed
        then false
        else if not (has_matched_creative fl own_lang all_langs raw ctx)
        then false
        else true
  ]

  -- media.getCptDocs: the documents and the context after it
  pub media_docs :
      (ℕ → ℕ → Bool)
      → (ℕ → ℕ → Bool)
      → Option Handler
      → List Cond
      → Media
      → Context
      → List ℕ × Context
  unfolding cpt_filter
  media_docs own_lang all_langs handler conds media ctx =
      if ltb ctx.now media.start_time || ltb media.end_time ctx.now
      then ([], ctx)
      else elim handler [
        | none ↦ ([], ctx)
        | some search ↦
            let slot = slot_of media ctx.slot_id in
            let sized = record ctx { img_w = slot.img_w; img_h = slot.img_h } in
            let docs = search conds (cpt_filter own_lang all_langs media sized) in
            let back = record sized { img_w = ctx.img_w; img_h = ctx.img_h } in
            if length docs == 0 then (docs, back) else (docs, sized)
      ]

  pub get_cpt_docs :
      (ℕ → ℕ → Bool)
      → (ℕ → ℕ → Bool)
      → Option Handler
      → Dict Media
      → List Cond
      → Context
      → List ℕ × Context
  unfolding with_pmt media_docs
  get_cpt_docs own_lang all_langs handler g_media_map conds ctx =
      if is_wugan ctx then ([], ctx) else elim (lookup ctx.slot_id g_media_map) [
        | none ↦ ([], ctx)
        | some media ↦ media_docs own_lang all_langs handler (with_pmt conds) media ctx
      ]
