-- ===== src/Ssp/Manager/Templates.antt =====
-- The numbers of the templates in ssp/v3_ssp_info.go.
use real_api_server.Prelude.{
  All-append_one, ℕ, ◌+◌, ◌≤◌, String, ◌≡◌, ◌⊎◌, inl, inr, refl, Bool, true, false, not, Option,
  none, some, List, [], ◌∷◌, ◌++◌, length, length-append, ◌==◌, nat_eq, string_eq, if◌then◌else◌,
  ltb, ◌&&◌, ◌||◌, Bool-cases, Option-cases, All, arith,
}
use real_api_server.Prelude.Dict.{Dict, lookup, insert}
use real_api_server.Ssp.{SlotInfo, Template}
use real_api_server.Ssp.Manager.{
  AppSlot, AppTpl, AppSlotManager, VideoIntegration, new_app_slot_manager, num_or_zero, add_first,
  add_tpl, app_slot, add_rewarded, add_integration, add_slot, add_slots, gen_token, gen_manager,
}

-- The templates have the numbers after `k`, in their order.
abbrev pub Numbered : ℕ → List AppTpl → Type 0
Numbered k [] = Unit
Numbered k (t ∷ ts) = (t.id ≡ k + 1) × Numbered (k + 1) ts

-- The templates are numbered from 1 to tplIdx, and every number that the map or a slot has is one of
-- these, or 0 for a slot without a template; every slot is on.
pub record IsSound (m : AppSlotManager) : Type 0 where
  pub numbered : Numbered 0 m.tpls
  pub last : m.tpl_idx ≡ length m.tpls
  pub signs : All (λ (e : String × ℕ). e.1 ≤ m.tpl_idx) m.tpl_map
  pub slot_tpls : All (λ s. s.tpl_id ≤ m.tpl_idx) m.slots
  pub on : All (λ s. (s.active ≡ 1) ⊎ (s.active ≡ 3)) m.slots

Numbered-append :
    (k : ℕ) (ts : List AppTpl) (t : AppTpl)
    → Numbered k ts
    → t.id ≡ k + length ts + 1
    → Numbered k (ts ++ t ∷ [])
Numbered-append k [] t h e = (omega (arith, e), tt)
Numbered-append k (s ∷ ts) t (p, h) e = (p, Numbered-append (k + 1) ts t h (omega (arith, e)))

All-weaken :
    {A : Type 0} (f : A → ℕ) (m n : ℕ) (l : List A)
    → m ≤ n
    → All (λ a. f a ≤ m) l
    → All (λ a. f a ≤ n) l
All-weaken f m n [] le h = tt
All-weaken f m n (x ∷ l) le (p, h) = (omega (arith, p, le), All-weaken f m n l le h)

All-insert :
    (k : String) (v n : ℕ) (m : Dict ℕ)
    → v ≤ n
    → All (λ (e : String × ℕ). e.1 ≤ n) m
    → All (λ (e : String × ℕ). e.1 ≤ n) (insert k v m)
unfolding insert
All-insert k v n [] le h = (le, tt)
All-insert k v n ((j, w) ∷ m) le (p, h) = elim (Bool-cases (j == k)) [
  | inl e ↦ rw e (le, h)
  | inr e ↦ rw e (p, All-insert k v n m le h)
]

lookup_le :
    (k : String) (n : ℕ) (m : Dict ℕ)
    → All (λ (e : String × ℕ). e.1 ≤ n) m
    → num_or_zero (lookup k m) ≤ n
unfolding lookup
lookup_le k n [] h = omega arith
lookup_le k n ((j, w) ∷ m) (p, h) = elim (Bool-cases (j == k)) [
  | inl e ↦ rw e p
  | inr e ↦ rw e (lookup_le k n m h)
]

-- What the block for the template leaves.
abbrev Added : AppSlotManager → ℕ × AppSlotManager → Type 0
Added m (tpl_id, m') = IsSound m' × (tpl_id ≤ m'.tpl_idx)

add_first-IsSound :
    (base64 : String → String) (ts : List Template) (m : AppSlotManager)
    → IsSound m
    → Added m (add_first base64 ts m)
unfolding add_first
add_first-IsSound base64 [] m v = (v, omega arith)
add_first-IsSound base64 (t ∷ ts) m v =
    let le : m.tpl_idx ≤ m.tpl_idx + 1 = omega arith in
    let new : AppTpl = record { id = m.tpl_idx + 1; tpl = base64 t.h5 } in
    elim (Bool-cases (num_or_zero (lookup t.sign m.tpl_map) == 0)) [
      | inr e ↦ rw e (v, lookup_le t.sign m.tpl_idx m.tpl_map v.signs)
      | inl e ↦ rw e (
        record {
          numbered = Numbered-append 0 m.tpls new v.numbered (omega (arith, v.last));
          last = omega (arith, v.last, length-append {0} m.tpls (new ∷ []));
          signs =
              All-insert t.sign (m.tpl_idx + 1) (m.tpl_idx + 1) m.tpl_map (omega arith) (
                All-weaken (λ (e : String × ℕ). e.1) m.tpl_idx (m.tpl_idx + 1) m.tpl_map le
                  v.signs);
          slot_tpls =
              All-weaken (λ (s : AppSlot). s.tpl_id) m.tpl_idx (m.tpl_idx + 1) m.slots le
                v.slot_tpls;
          on = v.on;
        },
        omega arith,
      )
    ]

integration-IsSound :
    (m : AppSlotManager) (o : Option VideoIntegration)
    → IsSound m
    → IsSound (record m { video_integration = o })
integration-IsSound m o v = record {
  numbered = v.numbered;
  last = v.last;
  signs = v.signs;
  slot_tpls = v.slot_tpls;
  on = v.on;
}

gen_token-IsSound : (m : AppSlotManager) → IsSound m → IsSound (gen_token m)
unfolding gen_token
gen_token-IsSound m v = elim (Option-cases m.video_integration) [
  | inl e ↦ rw e (integration-IsSound m none v)
  | inr (vi, e) ↦ rw e (integration-IsSound m _ v)
]

module _ {F : Type 0} (base64 : String → String) where
  add_tpl-IsSound :
      (slot : SlotInfo F) (m : AppSlotManager) → IsSound m → Added m (add_tpl base64 slot m)
  unfolding add_tpl
  add_tpl-IsSound slot m v =
      elim (Bool-cases (not (slot.fb_id == "") || not (slot.admob_id == ""))) [
        | inl e ↦ rw e (add_first-IsSound base64 slot.templates m v)
        | inr e ↦ rw e (v, omega arith)
      ]

  app_slot_active :
      (slot : SlotInfo F) (n : ℕ)
      → slot.slot_switch ≡ 1
      → ((app_slot slot n).active ≡ 1) ⊎ ((app_slot slot n).active ≡ 3)
  unfolding app_slot
  app_slot_active slot n e = elim (Bool-cases (slot.slot_switch == 1 && slot.pre_click == 2)) [
    | inl t ↦ rw t (inr refl)
    | inr t ↦ rw t (inl e)
  ]

  listed-IsSound :
      (slot : SlotInfo F) (n : ℕ) (m : AppSlotManager)
      → slot.slot_switch ≡ 1
      → n ≤ m.tpl_idx
      → IsSound m
      → IsSound (record m { slots = m.slots ++ app_slot slot n ∷ [] })
  listed-IsSound slot n m e le v = record {
    numbered = v.numbered;
    last = v.last;
    signs = v.signs;
    slot_tpls =
        All-append_one (λ s. s.tpl_id ≤ m.tpl_idx) m.slots (app_slot slot n) v.slot_tpls
          (unfold app_slot in le);
    on =
        All-append_one (λ s. (s.active ≡ 1) ⊎ (s.active ≡ 3)) m.slots (app_slot slot n) v.on
          (app_slot_active slot n e);
  }

  add_rewarded-IsSound :
      (slot : SlotInfo F) (m : AppSlotManager) → IsSound m → IsSound (add_rewarded slot m).1
  unfolding add_rewarded
  add_rewarded-IsSound slot m v = elim (Bool-cases (slot.rewarded_amount == "")) [
    | inl e ↦ rw e v
    | inr e ↦ rw e (record {
      numbered = v.numbered;
      last = v.last;
      signs = v.signs;
      slot_tpls = v.slot_tpls;
      on = v.on;
    })
  ]

  add_integration-IsSound :
      (slot : SlotInfo F) (m : AppSlotManager) → IsSound m → IsSound (add_integration slot m)
  unfolding add_integration
  add_integration-IsSound slot m v =
      elim (Bool-cases
        (ltb 0 (length slot.video_integration) || ltb 0 (length m.rewarded_videos))) [
          | inl e ↦ rw e (integration-IsSound m _ v)
          | inr e ↦ rw e v
        ]

  if_either :
      (P : SlotInfo F × AppSlotManager → Type 0) (b : Bool) (x y : SlotInfo F × AppSlotManager)
      → (b ≡ true → P x)
      → (b ≡ false → P y)
      → P (if b then x else y)
  if_either P true x y f g = f refl
  if_either P false x y f g = g refl

  -- What AddSlot does after the slot is listed.
  abbrev finished : SlotInfo F → AppSlotManager → SlotInfo F × AppSlotManager
  finished slot m =
      let (slot', rewarded) = add_rewarded slot m in
      if not (slot.format == 6) && not (slot.format == 7)
      then (slot, m)
      else (slot', add_integration slot' rewarded)

  finished-IsSound :
      (slot : SlotInfo F) (m : AppSlotManager) → IsSound m → IsSound (finished slot m).1
  finished-IsSound slot m v = elim (Bool-cases (not (slot.format == 6) && not (slot.format == 7))) [
    | inl e ↦ rw e v
    | inr e ↦ rw e (
        add_integration-IsSound (add_rewarded slot m).0 (add_rewarded slot m).1
          (add_rewarded-IsSound slot m v))
  ]

  add_slot-IsSound :
      (slot : SlotInfo F) (m : AppSlotManager) → IsSound m → IsSound (add_slot base64 slot m).1
  unfolding add_slot
  add_slot-IsSound slot m v =
      let (tpl_id, m') = add_tpl base64 slot m in
      let (w, le) = add_tpl-IsSound slot m v in
      let listed : AppSlotManager = record m' { slots = m'.slots ++ app_slot slot tpl_id ∷ [] } in
      if_either (λ p. IsSound p.1) (not (slot.slot_switch == 1)) (slot, m) (finished slot listed)
        (λ off. v)
        (λ on.
          finished-IsSound slot listed (listed-IsSound slot tpl_id m' (ground (arith, on)) le w))

  add_slots_missing :
      (id : String) (ids : List String) (store : Dict (SlotInfo F)) (m : AppSlotManager)
      → lookup id store ≡ none
      → add_slots base64 (id ∷ ids) store m ≡ add_slots base64 ids store m
  unfolding add_slots
  add_slots_missing id ids store m e = rw (e, add_slots) refl

  add_slots_found :
      (id : String) (ids : List String) (store : Dict (SlotInfo F)) (m : AppSlotManager)
      {slot : SlotInfo F}
      → lookup id store ≡ some slot
      → add_slots base64 (id ∷ ids) store m
        ≡ add_slots base64 ids
            (insert id (add_slot base64 slot m).0 store)
            (add_slot base64 slot m).1
  unfolding add_slots
  add_slots_found id ids store m e = rw (e, add_slots) refl

  add_slots-IsSound :
      (ids : List String) (store : Dict (SlotInfo F)) (m : AppSlotManager)
      → IsSound m
      → IsSound (add_slots base64 ids store m).1
  add_slots-IsSound [] store m v = unfold add_slots in v
  add_slots-IsSound (id ∷ ids) store m v = elim (Option-cases (lookup id store)) [
    | inl missing ↦ rw (add_slots_missing id ids store m missing) (add_slots-IsSound ids store m v)
    | inr (slot, found) ↦ rw (add_slots_found id ids store m found) (
        add_slots-IsSound ids (insert id (add_slot base64 slot m).0 store)
          (add_slot base64 slot m).1 (add_slot-IsSound slot m v))
  ]

  -- The manager that GenAuxiliaryGlobalConf makes for the slots of an app is in order: its templates
  -- are numbered from 1 in their order, tplIdx is their count, and every slot in it is on and has
  -- the number of one of its templates, or 0.
  pub gen_manager-IsSound :
      (ids : List String) (store : Dict (SlotInfo F)) → IsSound (gen_manager base64 ids store).1
  unfolding gen_manager
  gen_manager-IsSound ids store = gen_token-IsSound _ (
      add_slots-IsSound ids store new_app_slot_manager
        (record { numbered = tt; last = refl; signs = tt; slot_tpls = tt; on = tt }))
