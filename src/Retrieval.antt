-- ===== src/Retrieval.antt =====
-- retrieval/service.go and retrieval/retrieval.go: which offers the search admits for a request, and
-- which requests are turned away before the search. `contains s k` is strings.Contains.
pub mod Search
pub mod Fuyu
pub mod Wugan
pub mod Filter
pub mod Tracks
pub mod NativeV4
pub mod VideoV4
mod Tests
use real_api_server.Prelude.{
  ℕ, String, Bool, true, false, not, ◌&&◌, ◌||◌, Option, none, some, List, [], ◌∷◌, ◌++◌, ◌==◌,
  nat_eq, string_eq, if◌then◌else◌,
}
use real_api_server.Prelude.Int.{ℤ, pos, eqb_ℤ}
use real_api_server.Prelude.Dict.{Dict, lookup}
use real_api_server.Prelude.Float.{Float64}
use real_api_server.Bloom.{BloomFilter, test_index}
use real_api_server.HttpContext.{Context, is_wugan}
use real_api_server.RawAd.{RawAd, is_hit_slot}
use real_api_server.Ssp.{SlotInfo, Template, in_white_list, slot_imp_in_cap}

-- `m != nil && m[k]`
unfoldable pub listed : Option (Dict Bool) → String → Bool
listed none k = false
listed (some m) k = elim (lookup k m) [ none ↦ false | some b ↦ b ]

-- `m != nil && !m[k]`
unfoldable pub unlisted : Option (Dict Bool) → String → Bool
unlisted none k = false
unlisted (some m) k = elim (lookup k m) [ none ↦ true | some b ↦ not b ]

-- the last test of adSearch
unfoldable pub bloom_rejects : Context → List ℕ → Bool
bloom_rejects ctx index =
    if ctx.platform == "Android"
    then elim ctx.ct_bf [ none ↦ false | some bf ↦ test_index bf index ]
    else false

module _ (fl : Float64) where
  -- the message and the verdict of adSearch; `coin` is the draw of rand.Float64()
  unfoldable pub ad_search : fl.F → RawAd fl.F → Context → SlotInfo fl.F → String × Bool
  ad_search coin raw ctx tpl =
      if ctx.is_debug && (not (ctx.channel == "") && not (ctx.channel == raw.channel))
      then ("", false)
      else if ctx.is_debug && (not (ctx.offerid == "") && not (ctx.offerid == raw.id))
      then ("", false)
      else if listed tpl.ad_network_black_map raw.channel
      then ("black channel", false)
      else if not (in_white_list tpl.white_list_filter raw.product_category)
      then ("not hit product category(gpd, sub, ddl)", false)
      else if not (is_hit_slot raw ctx.slot_id)
      then ("not hit white slot", false)
      else if listed tpl.offer_black_map raw.uniq_id
      then ("offer black", false)
      else if not (is_wugan ctx) && unlisted tpl.ad_network_white_map raw.channel
      then ("not hit white channel", false)
      else if not (is_wugan ctx) && listed tpl.pkg_black_map raw.pkg_name
      then ("pkg black", false)
      else if not (is_wugan ctx) && fl.less raw.traffic_rate coin
      then ("traffic rate", false)
      else if bloom_rejects ctx raw.ct_bloom_index
      then ("android bloom filter", false)
      else ("", true)

module _ {F : Type 0} (contains : String → String → Bool) where
  -- the loop of matchKeyWords
  unfoldable pub any_key_word : RawAd F → String → List String → Bool
  any_key_word raw match_in [] = false
  any_key_word raw match_in (kw ∷ kws) =
      let rest = any_key_word raw match_in kws in
      if not (match_in == "desc") && contains raw.title_lc kw
      then true
      else if not (match_in == "title") && contains raw.desc_lc kw
      then true
      else rest

  pub match_key_words : RawAd F → Context → Bool
  unfolding any_key_word
  match_key_words raw ctx = elim ctx.key_words [
    | [] ↦ true
    | kw ∷ kws ↦ any_key_word raw ctx.match_in (kw ∷ kws)
  ]

pub record Cond : Type 0 where
  pub key : String
  pub val : String

-- append of a condition whose value is not empty
abbrev if_set : String → String → List Cond
if_set k v = if v == "" then [] else record { key = k; val = v } ∷ []

abbrev network_cond : String → List Cond
network_cond v = record { key = "network"; val = v } ∷ []

-- makeRetrievalConditions; `major v` is the text of the major number that util.GetOsVersion reads
pub make_retrieval_conditions : (String → String) → Context → List Cond
make_retrieval_conditions major ctx =
    record { key = "platform"; val = ctx.platform }
    ∷ ((if ctx.platform == "iOS"
          then (if ctx.network == "3"
              then network_cond "mobile"
              else if ctx.network == "5"
              then network_cond "wifi"
              else [])
          else if ctx.platform == "Android"
          then (if ctx.network == "1"
              then network_cond "wifi"
              else if ctx.network == "0"
              then network_cond "mobile"
              else [])
          else [])
        ++ ((if ctx.version == ""
              then []
              else record { key = "version"; val = major ctx.version } ∷ [])
            ++ (if_set "country" ctx.country
                ++ (if_set "region" ctx.region
                    ++ (if_set "city" ctx.city
                        ++ (record {
                          key = "material";
                          val = if ctx.creative_type == "video" then "video" else "img";
                        }
                            ∷ record {
                              key = "device";
                              val = if ctx.device == "" then "any" else ctx.device;
                            }
                            ∷ []))))))

-- The answer that turns a request away: errMsg and errNo, the phase it leaves, and the counter of the
-- statistics that goes up, if one does.
pub record Refusal : Type 0 where
  pub err_msg : String
  pub err_no : ℕ
  pub phase : Option String
  pub stat : Option String

pub data Gate : Type 0 where
  refuse : Refusal → Gate
  -- ctx.Template, and the size of the picture
  admit : Template → Context → Gate

-- A refusal with its phase and its counter.
abbrev refuse_as : String → ℕ → String → String → Gate
refuse_as msg n ph st =
    Gate.refuse (record { err_msg = msg; err_no = n; phase = some ph; stat = some st })

module _ (fl : Float64) where
  -- retrievalHandler between NewContext and the search: `has_dnf` says that dnf.GetHandler() is not
  -- nil, `rate_coin` and `cap_coin` are the draws of rand.Float64().
  pub retrieval_gate : Bool → fl.F → fl.F → Context → Option (SlotInfo fl.F) → Gate
  retrieval_gate false rate_coin cap_coin ctx slot =
      refuse_as "dnf_handler nil" 2 "RenderDnfLoading" "DnfNil"
  retrieval_gate true rate_coin cap_coin ctx none =
      refuse_as "no match tpl" 5 "RenderNoMatchTpl" "TplNoMatch"
  retrieval_gate true rate_coin cap_coin ctx (some tpl) =
      if tpl.slot_switch == 2
      then refuse_as "slot closed" 5 "RenderSlotClosed" "TplNoMatch"
      else if (ctx.ad_type == "0" || (ctx.ad_type == "1" || ctx.ad_type == "2"))
          && fl.less tpl.impression_rate rate_coin
      then refuse_as "no match ad" 5 "RenderImpCtrl" "ImpRateFilted"
      else elim tpl.templates [
        | [] ↦ refuse_as "tpl size 0" 6 "RenderTplSizeNoMatch" "TplSizeErr"
        | t ∷ ts ↦
            if slot_imp_in_cap fl cap_coin tpl tpl.max_impression
            then Gate.admit t (record ctx { img_w = t.width; img_h = t.height })
            else Gate.refuse (record {
              err_msg = "slot reach impression cap";
              err_no = 1;
              phase = none;
              stat = none;
            })
      ]
