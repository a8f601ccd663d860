-- ===== src/Ssp/Brothers/Laws.antt =====
-- The brothers that GenBrothers of ssp/ssp_info.go gives to the slots.
use real_api_server.Prelude.{
  nat_eq, String, ◌≡◌, ◌≢◌, inl, inr, subst, Bool, false, not, ◌&&◌, Option, some, List, [], ◌∷◌,
  ◌++◌, ◌==◌, string_eq, Bool-cases, Option-cases, All, arith, eq_iff,
}
use real_api_server.Prelude.Dict.{Dict, lookup, insert, lookup-insert}
use real_api_server.Prelude.Int.{ℤ}
use real_api_server.Prelude.{true, refl, sym, ◌∙◌, if◌then◌else◌}
use real_api_server.Ssp.{SlotInfo, AppInfo, get_all_slot_in_app}
use real_api_server.Ssp.App.{get_all_slot_in_app-lookup}
use real_api_server.Ssp.Brothers.{others_of, append_brothers, link, link_app, gen_brothers}

module _ (offline : String → Bool) where
  -- Brothers of the slot `id`: others than itself, none of them offline.
  abbrev pub Others : String → List String → Type 0
  Others id bs = All (λ b. (b ≢ id) × (offline b ≡ false)) bs

  Others-append :
      (id : String) (old bs : List String) → Others id old → Others id bs → Others id (old ++ bs)
  Others-append id [] bs h k = k
  Others-append id (a ∷ old) bs (p, h) k = (p, Others-append id old bs h k)

  others_of-Others : (own : String) (slots : List String) → Others own (others_of offline own slots)
  unfolding others_of
  others_of-Others own [] = tt
  others_of-Others own (s ∷ slots) = elim (Bool-cases (not (s == own) && not (offline s))) [
    | inl e ↦
        rw e (
          ((λ q. ground (arith, e, q, eq_iff s own)), ground (arith, e)),
          others_of-Others own slots,
        )
    | inr e ↦ rw e (others_of-Others own slots)
  ]

module _ {F : Type 0} (offline : String → Bool) where
  -- Every slot of the store has such brothers only.
  abbrev pub IsFamily : Dict (SlotInfo F) → Type 0
  IsFamily store =
      (id : String) (s : SlotInfo F) → lookup id store ≡ some s → Others offline id s.brothers

  insert-IsFamily :
      (id : String) (s : SlotInfo F) (store : Dict (SlotInfo F))
      → Others offline id s.brothers
      → IsFamily store
      → IsFamily (insert id s store)
  insert-IsFamily id s store h v j t found = elim (Bool-cases (id == j)) [
    | inl e ↦
        let same : id ≡ j = (eq_iff id j).0 e in
        let q : s ≡ t = ground (arith, e, lookup-insert id j s store, found) in
        subst (λ (r : SlotInfo F). Others offline j r.brothers) q
          (subst (λ i. Others offline i s.brothers) same h)
    | inr e ↦ v j t (ground (arith, e, lookup-insert id j s store, found))
  ]

  append_brothers-IsFamily :
      (id : String) (more : List String) (store : Dict (SlotInfo F))
      → Others offline id more
      → IsFamily store
      → IsFamily (append_brothers id more store)
  unfolding append_brothers
  append_brothers-IsFamily id more store h v = elim (Option-cases (lookup id store)) [
    | inl e ↦ rw (e, append_brothers) v
    | inr (slot, e) ↦
        rw (e, append_brothers)
          (insert-IsFamily id (record slot { brothers = slot.brothers ++ more }) store
            (Others-append offline id slot.brothers more (v id slot e) h) v)
  ]

  link-IsFamily :
      (slots ids : List String) (store : Dict (SlotInfo F))
      → IsFamily store
      → IsFamily (link offline slots ids store)
  unfolding link
  link-IsFamily slots [] store v = v
  link-IsFamily slots (id ∷ ids) store v = elim (Bool-cases (offline id)) [
    | inl e ↦ rw (e, link) (link-IsFamily slots ids store v)
    | inr e ↦
        rw (e, link)
          (link-IsFamily slots ids (append_brothers id (others_of offline id slots) store) (
            append_brothers-IsFamily id (others_of offline id slots) store
              (others_of-Others offline id slots) v))
  ]

  written-Others :
      (id : String) (slot : SlotInfo F) (store : Dict (SlotInfo F)) (off b : Bool) (j : String)
      (s : SlotInfo F)
      → IsFamily store
      → lookup id store ≡ some slot
      → (b ≡ true → id ≡ j)
      → (if off && b then some (record slot { slot_switch = 2 }) else lookup j store) ≡ some s
      → Others offline j s.brothers
  written-Others id slot store true true j s v e same h =
      let own : record slot { slot_switch = 2 } ≡ s = cc in
      subst (λ (r : SlotInfo F). Others offline j r.brothers) own
        (subst (λ k. Others offline k slot.brothers) (same refl) (v id slot e))
  written-Others id slot store true false j s v e same h = v j s h
  written-Others id slot store false b j s v e same h = v j s h

  switched-IsFamily :
      (apps : ℤ → Option AppInfo) (store : Dict (SlotInfo F)) (id : String)
      → IsFamily store
      → IsFamily (get_all_slot_in_app (some apps) store id).0
  switched-IsFamily apps store id v = elim (get_all_slot_in_app-lookup apps store id) [
    | inl (e, why) ↦ subst (λ r. IsFamily r.0) (sym e) v
    | inr (slot, app, e, f, w, ids) ↦ λ j s h.
        written-Others id slot store (not (app.app_switch == 1)) (id == j) j s v e (eq_iff id j).0
          (sym (w j) ∙ h)
  ]

  link_app-IsFamily :
      (apps : ℤ → Option AppInfo) (slots : List String) (store : Dict (SlotInfo F))
      → IsFamily store
      → IsFamily (link_app offline apps slots store)
  unfolding link_app
  link_app-IsFamily apps [] store v = v
  link_app-IsFamily apps (start ∷ ss) store v =
      elim (Option-cases (get_all_slot_in_app (some apps) store start).1) [
        | inl e ↦ rw (e, link_app) (switched-IsFamily apps store start v)
        | inr (slots, e) ↦
            rw (e, link_app)
              (link-IsFamily slots slots (get_all_slot_in_app (some apps) store start).0
                (switched-IsFamily apps store start v))
      ]

  -- GenBrothers, in whatever order it walks the apps, never makes a slot its own brother and makes no
  -- offline slot a brother, if the store has no such brothers before it.
  pub gen_brothers-IsFamily :
      (apps : ℤ → Option AppInfo) (walk : List AppInfo) (store : Dict (SlotInfo F))
      → IsFamily store
      → IsFamily (gen_brothers offline apps walk store)
  unfolding gen_brothers
  gen_brothers-IsFamily apps [] store v = v
  gen_brothers-IsFamily apps (app ∷ walk) store v =
      gen_brothers-IsFamily apps walk (link_app offline apps app.slots store)
        (link_app-IsFamily apps app.slots store v)
