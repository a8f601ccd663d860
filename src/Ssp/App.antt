-- ===== src/Ssp/App.antt =====
-- GetAllSlotInApp and GetVideoSlot of ssp/ssp_info.go.
use real_api_server.Prelude.{
  Bool, false, none, not, ◌&&◌, is_some, ◌∙◌, ap, eq_iff, All, All-imp, ◌≡◌, ◌≢◌, ◌⊎◌, inl, inr,
  refl, String, true, Option, some, List, [], ◌∷◌, arith, ◌==◌, nat_eq, string_eq, if◌then◌else◌,
  Option-cases, Bool-cases, Within,
}
use real_api_server.Prelude.Int.{ℤ}
use real_api_server.Prelude.Dict.{Dict, lookup, insert, lookup-insert}
use real_api_server.Ssp.{
  SlotInfo, AppInfo, is_active_video_slot, active_brother, get_video_slot, get_all_slot_in_app,
  other_slots,
}

kept :
    {A : Type 0} (P : A → Type 0) (b : Bool) (x : A) (l : List A)
    → All P l
    → (b ≡ true → P x)
    → All P (if b then x ∷ l else l)
kept P true x l h f = (f refl, h)
kept P false x l h f = h

module _ {F : Type 0} where
  module _ (id : String) (slot : SlotInfo F) (store : Dict (SlotInfo F)) where
    -- A store like `store`, but for the slot of `id`, which is switched off if `off`.
    abbrev pub Written : Bool → Dict (SlotInfo F) → Type 0
    Written off st =
        (j : String)
        → lookup j st
          ≡ (if off && id == j then some (record slot { slot_switch = 2 }) else lookup j store)

    -- An id of the app, of another slot that the store knows.
    abbrev pub Other : List String → String → Type 0
    Other ids s = Within s ids × (s ≢ slot.id_str) × ((t : SlotInfo F) × (lookup s store ≡ some t))

    written :
        (o v u : Option (SlotInfo F)) (off b : Bool)
        → off ≡ true
        → u ≡ (if off && b then o else v)
        → (if b then o else u) ≡ (if off && b then o else v)
    written o v u off true e h = rw e refl
    written o v u true false e h = h
    written o v u false false e h = h

    Written-if :
        (b off : Bool) (st : Dict (SlotInfo F))
        → (b ≡ true → off ≡ true)
        → Written off st
        → Written off (if b then insert id (record slot { slot_switch = 2 }) st else st)
    Written-if false off st h w = w
    Written-if true off st h w = λ j.
        lookup-insert id j (record slot { slot_switch = 2 }) st
        ∙ written _ _ _ off (id == j) (h refl) (w j)

    first_write :
        (off : Bool)
        → Written off (if off then insert id (record slot { slot_switch = 2 }) store else store)
    first_write true = λ j. lookup-insert id j (record slot { slot_switch = 2 }) store
    first_write false = λ j. refl

    known_before :
        (off : Bool) (st : Dict (SlotInfo F)) (s : String)
        → lookup id store ≡ some slot
        → Written off st
        → is_some (lookup s st) ≡ true
        → (t : SlotInfo F) × (lookup s store ≡ some t)
    known_before off st s here w h = elim (Option-cases (lookup s store)) [
      | inr (t, e) ↦ (t, e)
      | inl e ↦ elim (Bool-cases (id == s)) [
        | inl q ↦
            let same : lookup id store ≡ lookup s store =
              ap (λ k. lookup k store) ((eq_iff id s).0 q) in
            absurd (ground (arith, same, here, e))
        | inr q ↦ absurd (ground (arith, w s, h, e, q))
      ]
    ]

    other_slots-Written :
        (off : Bool) (ss : List String) (st : Dict (SlotInfo F))
        → lookup id store ≡ some slot
        → Written off st
        → Written off (other_slots off id slot ss st).0
          × All (Other ss) (other_slots off id slot ss st).1
    unfolding other_slots
    other_slots-Written off [] st here w = (w, tt)
    other_slots-Written off (s ∷ ss) st here w =
        let known = not (s == slot.id_str) && is_some (lookup s st) in
        let next = Written-if (known && off) off st (λ e. ground (arith, e)) w in
        let (w', h) = other_slots-Written off ss _ here next in
        let rest = All-imp (Other ss) (Other (s ∷ ss)) _ (λ a (m, n, t). (inr m, n, t)) h in
        (
          w',
          kept (Other (s ∷ ss)) known s _ rest (λ e. (
            inl refl,
            (λ q. ground (arith, e, eq_iff s slot.id_str, q)),
            known_before off st s here w (ground (arith, e)),
          )),
        )

  pub get_all_slot_in_app-lookup :
      (apps : ℤ → Option AppInfo) (store : Dict (SlotInfo F)) (id : String)
      → ((get_all_slot_in_app (some apps) store id ≡ (store, none))
          × ((lookup id store ≡ none)
              ⊎ ((slot : SlotInfo F) × (lookup id store ≡ some slot) × (apps slot.app_id ≡ none))))
        ⊎ ((slot : SlotInfo F) × (app : AppInfo) × (lookup id store ≡ some slot)
            × (apps slot.app_id ≡ some app)
            × Written id slot store
                (not (app.app_switch == 1))
                (get_all_slot_in_app (some apps) store id).0
            × ((ids : List String) × ((get_all_slot_in_app (some apps) store id).1
                  ≡ some (id ∷ ids))
                × All (Other id slot store app.slots) ids))
  unfolding get_all_slot_in_app
  get_all_slot_in_app-lookup apps store id = elim (Option-cases (lookup id store)) [
    | inl e ↦ rw (e, get_all_slot_in_app) (inl (refl, inl refl))
    | inr (slot, e) ↦ elim (Option-cases (apps slot.app_id)) [
      | inl f ↦ rw (e, f, get_all_slot_in_app) (inl (refl, inr (slot, refl, f)))
      | inr (app, f) ↦
          let off = not (app.app_switch == 1) in
          let (w, h) =
            other_slots-Written id slot store off app.slots _ e (first_write id slot store off) in
          rw (e, f, get_all_slot_in_app) (inr (slot, app, refl, f, w, (_, refl, h)))
    ]
  ]

  active_brother-IsActive :
      (store : Dict (SlotInfo F)) (bs : List String) {slot : SlotInfo F}
      → active_brother store bs ≡ some slot
      → (is_active_video_slot slot ≡ true)
        × ((b : String) × Within b bs × (lookup b store ≡ some slot))
  unfolding active_brother
  active_brother-IsActive store [] h = ground arith
  active_brother-IsActive store (b ∷ bs) {slot = slot} h = elim (Option-cases (lookup b store)) [
    | inl e ↦ later (active_brother-IsActive store bs (ground (arith, e, h)))
    | inr (info, e) ↦ elim (Bool-cases (is_active_video_slot info)) [
      | inl a ↦ (ground (arith, a, e, h), (b, inl refl, ground (arith, a, e, h)))
      | inr a ↦ later (active_brother-IsActive store bs (ground (arith, a, e, h)))
    ]
  ]
    where
      later :
          (is_active_video_slot slot ≡ true)
            × ((c : String) × Within c bs × (lookup c store ≡ some slot))
          → (is_active_video_slot slot ≡ true)
            × ((c : String) × Within c (b ∷ bs) × (lookup c store ≡ some slot))
      later (a, (c, w, f)) = (a, (c, inr w, f))

  -- A slot that GetVideoSlot returns is switched on and of a video format, and it is the slot asked
  -- for or one of its brothers.
  pub get_video_slot-IsActive :
      (store : Dict (SlotInfo F)) (id : String) (some_info slot : SlotInfo F)
      → lookup id store ≡ some some_info
      → get_video_slot store id ≡ some slot
      → (is_active_video_slot slot ≡ true)
        × ((slot ≡ some_info)
            ⊎ ((b : String) × Within b some_info.brothers × (lookup b store ≡ some slot)))
  unfolding get_video_slot
  get_video_slot-IsActive store id some_info slot e h =
      elim (Bool-cases (is_active_video_slot some_info)) [
        | inl a ↦ (ground (arith, a, e, h), inl (ground (arith, a, e, h)))
        | inr a ↦
            let (v, w) =
              active_brother-IsActive store some_info.brothers (ground (arith, a, e, h)) in
            (v, inr w)
      ]

  pub active_of-get_video_slot :
      (store : Dict (SlotInfo F)) (id : String) (slot : SlotInfo F)
      → get_video_slot store id ≡ some slot
      → is_active_video_slot slot ≡ true
  unfolding get_video_slot
  active_of-get_video_slot store id slot h = elim (Option-cases (lookup id store)) [
    | inl e ↦ ground (arith, e, h)
    | inr (some_info, e) ↦ (get_video_slot-IsActive store id some_info slot e h).0
  ]
