-- ===== src/Retrieval/VideoV4/Slots.antt =====
-- The slot that getVideoTplAndUpdateSlot finds, and the trackers that SetVideoCtxTks sets.
use real_api_server.Prelude.{
  ◌≡◌, ◌⊎◌, inl, inr, refl, sym, ◌∙◌, ap, true, Option, none, some, nat_eq, string_eq,
}
use real_api_server.Prelude.Dict.{Dict}
use real_api_server.Prelude.Run.{Run, Returns}
use real_api_server.HttpContext.{Context}
use real_api_server.Ssp.{SlotInfo, is_active_video_slot, get_video_slot}
use real_api_server.Ssp.App.{active_of-get_video_slot}
use real_api_server.Retrieval.VideoV4.{
  VideoTrackConf, get_video_tpl_and_update_slot, set_video_ctx_tks,
}

slot_named :
    {F : Type 0} (o : Option (SlotInfo F)) (asked : Context) (tpl : SlotInfo F) (ctx : Context)
    → (elim o as (λ u. Option (SlotInfo F × Context)) [
      | none ↦ none
      | some info ↦ some (info, record asked { slot_id = info.id_str })
    ])
      ≡ some (tpl, ctx)
    → (o ≡ some tpl) × (ctx ≡ record asked { slot_id = tpl.id_str })
slot_named none asked tpl ctx h = cc
slot_named {F} (some info) asked tpl ctx h =
    let same : ◌≡◌ {A = SlotInfo F × Context} (info, record asked { slot_id = info.id_str })
        (tpl, ctx) =
      cc in
    let own : info ≡ tpl = ap (λ u. u.0) same in
    (
      ap some own,
      sym (ap (λ u. u.1) same) ∙ ap (λ (t : SlotInfo F). record asked { slot_id = t.id_str }) own,
    )

pub slot_found :
    {F : Type 0} (store : Option (Dict (SlotInfo F))) (asked : Context) (tpl : SlotInfo F)
    (ctx : Context)
    → get_video_tpl_and_update_slot store asked ≡ some (tpl, ctx)
    → (is_active_video_slot tpl ≡ true) × (ctx ≡ record asked { slot_id = tpl.id_str })
unfolding get_video_tpl_and_update_slot
slot_found none asked tpl ctx h = cc
slot_found (some store) asked tpl ctx h =
    let (e, same) = slot_named (get_video_slot store asked.slot_id) asked tpl ctx h in
    (active_of-get_video_slot store asked.slot_id tpl e, same)

pub slot_case :
    {F V : Type 0} (P : V → Type 0) (o : Option (SlotInfo F × Context)) (call : Run V)
    (next : SlotInfo F → Context → Run V)
    → Returns P call
    → ((tpl : SlotInfo F) (ctx : Context) → o ≡ some (tpl, ctx) → Returns P (next tpl ctx))
    → Returns P (elim o [ none ↦ call | some (tpl, ctx) ↦ next tpl ctx ])
slot_case P none call next h f = h
slot_case P (some (tpl, ctx)) call next h f = f tpl ctx refl

pub set_video_ctx_tks-Returns :
    (conf : VideoTrackConf) (ctx : Context)
    → (ctx.platform ≡ "iOS") ⊎ (ctx.platform ≡ "Android")
    → Returns (λ tks. Unit {0}) (set_video_ctx_tks conf ctx)
unfolding set_video_ctx_tks
set_video_ctx_tks-Returns conf ctx (inl e) = rw e tt
set_video_ctx_tks-Returns conf ctx (inr e) = rw e tt
