-- ===== src/Life/Updates.antt =====
-- The slots and the time that getShouldUpdateSlots of tpl/life.go gives.
use real_api_server.Prelude.{
  ◌≡◌, ◌⊎◌, ◌↔◌, inl, inr, refl, ap, ◌∙◌, Bool, true, false, some, List, [], ◌∷◌, map,
  if◌then◌else◌, Bool-cases, All, Within, arith,
}
use real_api_server.Prelude.Int.{ℤ, pos, ltb_ℤ, ◌≤ℤ◌, ◌<ℤ◌}
use real_api_server.Prelude.Dict.{Dict}
use real_api_server.Ssp.{SlotInfo, AppInfo}
use real_api_server.Life.{life_slot, update_loop, get_should_update_slots, known_slots, life_answer}

-- The later of two times.
later_lem :
    (a b : ℤ)
    → (a ≤ℤ (if ltb_ℤ a b then b else a))
      × (b ≤ℤ (if ltb_ℤ a b then b else a))
      × (((if ltb_ℤ a b then b else a) ≡ a) ⊎ ((if ltb_ℤ a b then b else a) ≡ b))
later_lem a b = elim (Bool-cases (ltb_ℤ a b)) [
  | inl e ↦ rw e (ground (arith, e), omega arith, inr refl)
  | inr e ↦ rw e (omega arith, ground (arith, e), inl refl)
]

module _ {F : Type 0} where
  -- A slot that is newer than the time of the client.
  abbrev pub Newer : ℤ → List (SlotInfo F) → Type 0
  Newer ts [] = ⊥
  Newer ts (slot ∷ slots) = (ts <ℤ slot.update_time) ⊎ Newer ts slots

  update_loop-slots :
      (ts : ℤ) (slots : List (SlotInfo F)) (new : ℤ) (should : Bool)
      → (update_loop ts slots new should).0 ≡ map life_slot slots
  unfolding update_loop
  update_loop-slots ts [] new should = refl
  update_loop-slots ts (slot ∷ slots) new should =
      ap (λ t. life_slot slot ∷ t) (update_loop-slots ts slots _ _)

  update_loop-Newer :
      (ts : ℤ) (slots : List (SlotInfo F)) (new : ℤ) (should : Bool)
      → ((update_loop ts slots new should).2 ≡ true) ↔ ((should ≡ true) ⊎ Newer ts slots)
  unfolding update_loop
  update_loop-Newer ts [] new should = (λ h. inl h, λ h. elim h [ inl e ↦ e | inr w ↦ absurd w ])
  update_loop-Newer ts (slot ∷ slots) new should = elim (Bool-cases (ltb_ℤ ts slot.update_time)) [
    | inl e ↦
        let (f, g) =
          update_loop-Newer ts slots (if ltb_ℤ new slot.update_time then slot.update_time else new)
            true in
        rw e (λ h. inr (inl (ground (arith, e))), λ h. g (inl refl))
    | inr e ↦
        let (f, g) =
          update_loop-Newer ts slots (if ltb_ℤ new slot.update_time then slot.update_time else new)
            should in
        rw e (
          λ h. elim (f h) [ inl s ↦ inl s | inr w ↦ inr (inr w) ],
          λ h. elim h [
            | inl s ↦ g (inl s)
            | inr w ↦ elim w [ inl n ↦ absurd (ground (arith, e, n)) | inr v ↦ g (inr v) ]
          ],
        )
  ]

  -- A time that no slot exceeds, and that is `start` or that of a slot.
  abbrev pub IsLatest : ℤ → List (SlotInfo F) → ℤ → Type 0
  IsLatest start slots new =
      (start ≤ℤ new)
      × All (λ s. s.update_time ≤ℤ new) slots
      × ((new ≡ start) ⊎ ((s : SlotInfo F) × Within s slots × (new ≡ s.update_time)))

  update_loop-IsLatest :
      (ts : ℤ) (slots : List (SlotInfo F)) (new : ℤ) (should : Bool)
      → IsLatest new slots (update_loop ts slots new should).1
  unfolding update_loop
  update_loop-IsLatest ts [] new should = (omega arith, tt, inl refl)
  update_loop-IsLatest ts (slot ∷ slots) new should =
      let next = if ltb_ℤ new slot.update_time then slot.update_time else new in
      let should' = if ltb_ℤ ts slot.update_time then true else should in
      let (low, high, one) = later_lem new slot.update_time in
      let (least, all, source) = update_loop-IsLatest ts slots next should' in
      (
        omega (arith, low, least),
        (omega (arith, high, least), all),
        elim source [
          | inr (s, w, q) ↦ inr (s, inr w, q)
          | inl q ↦ elim one [ inl e ↦ inl (q ∙ e) | inr e ↦ inr (slot, inl refl, q ∙ e) ]
        ],
      )

  -- lifeHandler's answer for an app: an update (status 1) exactly if a slot of the app that the store
  -- knows is newer than the client's time, and then with all these slots in order, else status 3
  -- without slots. The time it gives is at least that of every slot, and is 0 or that of a slot.
  pub life_answer-IsLatest :
      (store : Dict (SlotInfo F)) (ts : ℤ) (app : AppInfo)
      → (((life_answer (some store) ts app).status ≡ 1) ↔ Newer ts (known_slots store app.slots))
        × ((((life_answer (some store) ts app).status ≡ 1)
              × ((life_answer (some store) ts app).slots
                  ≡ map life_slot (known_slots store app.slots)))
            ⊎ (((life_answer (some store) ts app).status ≡ 3)
                × ((life_answer (some store) ts app).slots ≡ [])))
        × IsLatest (pos 0) (known_slots store app.slots) (life_answer (some store) ts app).update
  unfolding life_answer get_should_update_slots
  life_answer-IsLatest store ts app =
      let slots = known_slots store app.slots in
      let (f, g) = update_loop-Newer ts slots (pos 0) false in
      let latest = update_loop-IsLatest ts slots (pos 0) false in
      elim (Bool-cases (update_loop ts slots (pos 0) false).2) [
        | inl e ↦ rw e (
          (λ h. newer slots (f e), λ h. refl),
          inl (refl, update_loop-slots ts slots (pos 0) false),
          latest,
        )
        | inr e ↦ rw e (
          (λ h. ground (arith, h), λ n. absurd (ground (arith, e, g (inr n)))),
          inr (refl, refl),
          latest,
        )
      ]
    where
      newer : (l : List (SlotInfo F)) → (false ≡ true) ⊎ Newer ts l → Newer ts l
      newer l (inl q) = absurd (ground (arith, q))
      newer l (inr n) = n
