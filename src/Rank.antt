-- ===== src/Rank.antt =====
-- rank/rank.go: the choice among the offers found, by the rank server or by copies of the list.
-- `draw i l` is the i-th `rand.Intn(l)`. `ask api user_hash post` is the whole exchange with the rank
-- server, `none` for each of its errors. `fmt_e` and `fmt_po` are the texts of `fmt.Sprintf` for
-- "e=%f" of 1000 times the ecpm and for "po=%f", `atoi` is strconv.Atoi.
pub mod Copy
pub mod Chosen
pub mod Draw
pub mod Video
mod Tests
use real_api_server.Prelude.{
  ℕ, zero, suc, ◌+◌, ◌-◌, ◌%◌, ◌^◌, String, Bool, true, false, not, ◌&&◌, ◌||◌, Option, none, some,
  List, [], ◌∷◌, ◌++◌, length, get_elem?, take, ltb, leb, ◌==◌, nat_eq, string_eq, if◌then◌else◌,
}
use real_api_server.Prelude.Int.{ℤ, pos, pos_part, leb_ℤ, ltb_ℤ}
use real_api_server.Prelude.Dict.{lookup}
use real_api_server.Prelude.Run.{Run, ok, panic, ◌>>=◌}
use real_api_server.GoHeap.{swap}
use real_api_server.HttpContext.{Context, is_wugan, imp_rank}
use real_api_server.RawAd.{RawAd, get_channel_type}

pub record Offer (F : Type 0) : Type 0 where
  pub id : String
  pub price : F
  pub freq : ℤ
  pub pkg_name : String
  pub channel : String
  pub ch_type : List ℤ
  pub can_pre : ℕ
  pub settle : String

pub record PostReq (F : Type 0) : Type 0 where
  pub user_id : String
  pub slot : String
  pub country : String
  pub platform : String
  pub ad_num : ℤ
  pub ad_type : String
  pub offers : List (Offer F)

pub record RespData (F : Type 0) : Type 0 where
  pub method : String
  pub id : String
  pub channel : String
  pub ecpm : F

pub record PostResp (F : Type 0) : Type 0 where
  pub tot : ℤ
  pub err_msg : String
  pub method : String
  pub resp : List (RespData F)

-- the largest capacity that make([]*RawAdObj, 0, n) takes where an address has 48 bits
unfoldable pub slice_limit : ℕ
slice_limit = 2 ^ 45

pub record Conf : Type 0 where
  pub rank_apis : List String
  pub imp_rank_api : String

-- setPre
pub set_pre : Context → ℕ
set_pre ctx = if is_wugan ctx then 1 else 2

-- how the inner loop over the offers ends
pub data Picked (F : Type 0) : Type 0 where
  full unmatched : Picked F
  matched : RawAd F → Picked F

module _ {F : Type 0} where
  -- the first loop of randomCopy: the white offers, until there are enough
  pub copy_white : ℤ → List (RawAd F) → List (RawAd F) → List (RawAd F)
  copy_white ad_num [] plist = plist
  copy_white ad_num (raw ∷ raws) plist =
      let plist' = if raw.is_t then plist ++ raw ∷ [] else plist in
      let rest = copy_white ad_num raws plist' in
      if raw.is_t && leb_ℤ ad_num (pos (length plist')) then plist' else rest

  -- the second loop: the others, with the test behind the append
  pub copy_others : ℤ → List (RawAd F) → List (RawAd F) → List (RawAd F)
  copy_others ad_num [] plist = plist
  copy_others ad_num (raw ∷ raws) plist =
      let plist' = if raw.is_t then plist else plist ++ raw ∷ [] in
      let rest = copy_others ad_num raws plist' in
      if not raw.is_t && leb_ℤ ad_num (pos (length plist')) then plist' else rest

  pub random_copy : List (RawAd F) → Context → List (RawAd F) × Context
  unfolding copy_white copy_others
  random_copy raws ctx = (
    if leb_ℤ (pos (length raws)) ctx.ad_num
        then raws
        else copy_others ctx.ad_num raws (copy_white ctx.ad_num raws []),
    record ctx { method = "randcp" },
  )

  -- `num` draws without repetition from the first `l` of `raws`, which shrink from the end
  unfoldable pub pick_random :
      (ℕ → ℕ → ℕ)
      → ℕ
      → ℕ
      → ℕ
      → List (RawAd F)
      → List (RawAd F)
      → Run (List (RawAd F) × List (RawAd F))
  unfolding swap
  pick_random draw zero i l raws plist = ok (plist, raws)
  pick_random draw (suc num) i l raws plist = elim (l == 0) [
    | true ↦ panic
    | false ↦ elim (get_elem? raws (draw i l)) [
      | none ↦ panic
      | some raw ↦
          pick_random draw num (i + 1) (l - 1) (swap raws (draw i l) (l - 1)) (plist ++ raw ∷ [])
    ]
  ]

  -- the copies, the slice as the draws leave it, and the context
  pub rand_copy :
      (ℕ → ℕ → ℕ) → List (RawAd F) → Context → ℕ → Run (List (RawAd F) × List (RawAd F) × Context)
  unfolding pick_random
  rand_copy draw raws ctx num =
      if ltb (length raws) num then ok (raws, raws, record ctx { method = "randcp" }) else do
        (plist, raws') ← pick_random draw num 0 (length raws) raws []
        ok (plist, raws', record ctx { method = "randcp" })

  -- the offers of a channel, and the others
  pub of_channel : Bool → String → List (RawAd F) → List (RawAd F)
  of_channel wanted ch [] = []
  of_channel wanted ch (raw ∷ raws) =
      let rest = of_channel wanted ch raws in
      if (if raw.channel == ch then wanted else not wanted) then raw ∷ rest else rest

  pub priority_copy :
      (ℕ → ℕ → ℕ) → String → List (RawAd F) → Context → Run (List (RawAd F) × Context)
  unfolding pick_random of_channel
  priority_copy draw ch raws ctx =
      let ctx' = record ctx { method = "prioritycp" } in
      let p_list = of_channel true ch raws in
      let others = of_channel false ch raws in
      if leb_ℤ (pos (length raws)) ctx.ad_num
      then ok (raws, ctx')
      else if ltb_ℤ (pos (length p_list)) ctx.ad_num
      then (do
        (plist, others') ←
            pick_random draw (pos_part ctx.ad_num - length p_list) 0 (length others) others p_list
        ok (take (pos_part ctx.ad_num) plist, ctx'))
      else ok (take (pos_part ctx.ad_num) p_list, ctx')

  pub make_offer : (String → Option ℤ) → Context → RawAd F → Offer F
  unfolding set_pre
  make_offer atoi ctx raw =
      let plain = ctx.ad_type == "0" || (ctx.ad_type == "1" || ctx.ad_type == "2") in
      record {
        id = raw.id;
        price = raw.payout;
        freq = elim ctx.freq_info.freq_map [
          | none ↦ pos 0
          | some m ↦ elim (lookup raw.id m) [ none ↦ pos 0 | some n ↦ n ]
        ];
        pkg_name = raw.pkg_name;
        channel = raw.channel;
        ch_type = get_channel_type atoi raw.channel_type;
        can_pre = if plain then 0 else set_pre ctx;
        settle = if plain then "" else "cpi";
      }

  pub make_offers : (String → Option ℤ) → Context → List (RawAd F) → List (Offer F)
  unfolding make_offer
  make_offers atoi ctx [] = []
  make_offers atoi ctx (raw ∷ raws) = make_offer atoi ctx raw ∷ make_offers atoi ctx raws

  pub create_post_data : (String → Option ℤ) → List (RawAd F) → Context → PostReq F
  unfolding make_offers
  create_post_data atoi raws ctx = record {
    user_id = ctx.user_id;
    slot = ctx.slot_id;
    country = ctx.country;
    platform = ctx.platform;
    ad_num = ctx.ad_num;
    ad_type = ctx.ad_type;
    offers = make_offers atoi ctx raws;
  }

  -- raws[i].IsT, or not
  pub white : Bool → List (RawAd F) → List (RawAd F)
  white wanted [] = []
  white wanted (raw ∷ raws) =
      let rest = white wanted raws in
      if (if raw.is_t then wanted else not wanted) then raw ∷ rest else rest

  -- the offers that are not white are posted, and the white ones handed back
  pub create_post_data_wg :
      (String → Option ℤ) → List (RawAd F) → Context → PostReq F × List (RawAd F)
  unfolding make_offers white
  create_post_data_wg atoi raws ctx =
      let offers = make_offers atoi ctx (white false raws) in
      (
        record {
          user_id = ctx.user_id;
          slot = ctx.slot_id;
          country = ctx.country;
          platform = ctx.platform;
          ad_num = pos (length offers);
          ad_type = ctx.ad_type;
          offers = offers;
        },
        white true raws,
      )

  -- the CPL offers for the test slot 1244
  pub cpl_offers : ℤ → List (RawAd F) → List (RawAd F) → List (RawAd F)
  cpl_offers ad_num [] out = out
  cpl_offers ad_num (raw ∷ raws) out =
      cpl_offers ad_num raws (
        if raw.payout_type == "CPL" && ltb_ℤ (pos (length out)) ad_num
        then out ++ raw ∷ []
        else out)

  -- the inner loop over the offers for one entry of the answer
  pub pick : ℕ → RespData F → List (RawAd F) → Picked F
  pick n_tot rc [] = unmatched
  pick n_tot rc (raw ∷ raws) =
      if n_tot == 0
      then full
      else if raw.id == rc.id && raw.channel == rc.channel
      then matched raw
      else pick n_tot rc raws

  module _ (fmt_e fmt_po : F → String) where
    pub with_args : RawAd F → RespData F → RawAd F
    with_args raw rc = record raw {
      attach_args = raw.attach_args ++ fmt_e rc.ecpm ∷ fmt_po raw.payout ∷ [];
    }

    -- the outer loop, over the entries of the answer
    pub collect :
        String
        → List (RawAd F)
        → ℕ
        → List (RespData F)
        → List (RawAd F)
        → Context
        → List (RawAd F) × Context
    unfolding with_args pick
    collect method raws n_tot [] out ctx = (out, ctx)
    collect method raws n_tot (rc ∷ rcs) out ctx = elim (pick n_tot rc raws) [
      | full ↦ (out, ctx)
      | unmatched ↦ collect method raws n_tot rcs out ctx
      | matched raw ↦
          collect method raws (n_tot - 1) rcs (out ++ with_args raw rc ∷ [])
            (record ctx { method = if method == "" then rc.method else method })
    ]

    -- from the answer of the rank server; `first` are the white offers of SelectWg
    pub use_answer :
        List (RawAd F)
        → List (RawAd F)
        → Context
        → Option (PostResp F)
        → Run (List (RawAd F) × Context)
    unfolding random_copy collect
    use_answer first raws ctx none = ok (random_copy raws ctx)
    use_answer first raws ctx (some rep) =
        if not (rep.err_msg == "ok")
        then ok (random_copy raws ctx)
        else if leb_ℤ rep.tot (pos 0)
        then ok ([], ctx)
        else if ltb slice_limit (pos_part rep.tot + length first)
        then panic
        else ok (collect rep.method raws (pos_part rep.tot) rep.resp first ctx)

    module _ (atoi : String → Option ℤ) (conf : Conf)
        (ask : String → ℕ → PostReq F → Option (PostResp F)) where
      -- conf.RankApis[i], round robin
      pub rank_api : Context → ℕ → String
      rank_api ctx i_host =
          if imp_rank ctx
          then conf.imp_rank_api
          else elim (get_elem? conf.rank_apis ((i_host + 1) % length conf.rank_apis)) [
            | none ↦ ""
            | some api ↦ api
          ]

      abbrev display : Context → Bool
      display ctx =
          ctx.ad_type == "5" || (ctx.ad_type == "7" || (ctx.ad_type == "9" || ctx.ad_type == "10"))

      abbrev cpl : List (RawAd F) → Context → List (RawAd F)
      cpl raws ctx =
          if not (is_wugan ctx) && ctx.slot_id == "1244" then cpl_offers ctx.ad_num raws [] else []

      -- the exchange with the rank server and the counter after it; without a rank server in the
      -- configuration the remainder for the round robin panics
      pub ranked :
          List (RawAd F)
          → List (RawAd F)
          → PostReq F
          → Context
          → ℕ
          → Run (List (RawAd F) × Context × ℕ)
      unfolding rank_api use_answer
      ranked first raws post ctx i_host = if length conf.rank_apis == 0 then panic else do
        (out, ctx') ← use_answer first raws ctx (ask (rank_api ctx i_host) ctx.user_hash post)
        ok (out, ctx', i_host + 1)

      -- Select: the offers, the context, and the round-robin counter after it
      pub select : List (RawAd F) → Context → ℕ → Run (List (RawAd F) × Context × ℕ)
      unfolding random_copy create_post_data cpl_offers ranked
      select [] ctx i_host = ok ([], ctx, i_host)
      select (raw ∷ rest) ctx i_host =
          let raws = raw ∷ rest in
          let (copies, copied) = random_copy raws ctx in
          if display ctx
          then ok (copies, copied, i_host)
          else if ltb 0 (length (cpl raws ctx))
          then ok (cpl raws ctx, record ctx { method = "cpl" }, i_host)
          else ranked [] raws (create_post_data atoi raws ctx) ctx i_host

      pub select_wg : List (RawAd F) → Context → ℕ → Run (List (RawAd F) × Context × ℕ)
      unfolding random_copy create_post_data_wg cpl_offers ranked
      select_wg [] ctx i_host = ok ([], ctx, i_host)
      select_wg (raw ∷ rest) ctx i_host =
          let raws = raw ∷ rest in
          let (copies, copied) = random_copy raws ctx in
          let (post, white_offers) = create_post_data_wg atoi raws ctx in
          if display ctx
          then ok (copies, copied, i_host)
          else if ltb 0 (length (cpl raws ctx))
          then ok (cpl raws ctx, record ctx { method = "cpl" }, i_host)
          else if length post.offers == 0
          then ok (white_offers, ctx, i_host)
          else ranked white_offers raws post ctx i_host
