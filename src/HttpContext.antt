-- ===== src/HttpContext.antt =====
-- http_context/http_context.go: the request context, its kinds of requests and the frequency caps.
-- Only the fields that the modelled code reads or writes are kept.
pub mod Freq
pub mod Parse
mod Tests
use real_api_server.Prelude.{
  ℕ, ◌-◌, ◌%◌, String, Bool, true, false, not, ◌&&◌, ◌||◌, Option, none, some, List, [], ◌∷◌, ◌++◌,
  length, ltb, ◌==◌, nat_eq, string_eq, if◌then◌else◌, is_some,
}
use real_api_server.Bloom.{BloomFilter}
use real_api_server.HttpContext.Parse.Forms.{str_join_underline}
use real_api_server.Prelude.Int.{ℤ, pos, minus_one, ◌+ℤ◌, ltb_ℤ, leb_ℤ, eqb_ℤ}
use real_api_server.Prelude.Dict.{Dict, lookup, insert}

pub record FreqInfo : Type 0 where
  pub freq_key : String
  pub freq_map : Option (Dict ℤ)
  pub p_freq_key : String
  pub p_freq_fields : List String
  pub p_freq_map : Option (Dict ℤ)
  pub v_completes : ℤ

pub record Context : Type 0 where
  pub phase : String
  pub is_debug : Bool
  pub is_demsg : Bool
  pub ad_num : ℤ
  pub integral_wall : Bool
  pub slot_id : String
  pub ad_type : String
  pub creative_type : String
  pub platform : String
  pub version : String
  pub device : String
  pub country : String
  pub region : String
  pub city : String
  pub carrier : String
  pub channel : String
  pub lang : String
  pub img_rule : ℤ
  pub freq_info : FreqInfo
  pub user_id : String
  pub user_hash : ℕ
  pub ad_pkg_name : List String
  pub ad_cat : String
  pub match_in : String
  pub key_words : List String
  pub method : String
  pub img_h : ℤ
  pub img_w : ℤ
  pub nrtv : ℕ
  pub ct_bf : Option BloomFilter
  pub network : String
  pub conv_pkg_set : Option (List String)
  pub demsg : Dict (List String)
  pub rank_use_gzip : Bool
  -- ctx.Params("offerid")
  pub offerid : String
  -- ctx.Now, in seconds
  pub now : ℕ
  pub video_screen_type : ℕ
  pub cid_map : List String
  pub sdk_version : String
  pub idfa : String
  pub gaid : String
  pub aid : String
  pub fuyu_user_id : String
  pub fuyu_phase : String
  pub nfy : ℕ
  -- ctx.get("nt")
  pub nt : String
  pub pkg_name : String
  pub button_text : String
  pub video_cache_num : ℤ
  pub load_time : ℤ
  pub click_time : ℤ

-- Has of a set of texts
pub has_text : String → List String → Bool
has_text k [] = false
has_text k (j ∷ m) = let rest = has_text k m in if j == k then true else rest

unfoldable pub is_rewarded_video : Context → Bool
is_rewarded_video ctx = ctx.ad_type == "7"

unfoldable pub is_wugan : Context → Bool
is_wugan ctx = ctx.ad_type == "3" || (ctx.ad_type == "4" || ctx.ad_type == "9")

pub is_promote : Context → Bool
is_promote ctx = ctx.ad_type == "8"

unfoldable pub imp_rank : Context → Bool
imp_rank ctx =
    ctx.ad_type == "0"
    || (ctx.ad_type == "1"
        || (ctx.ad_type == "2"
            || (ctx.ad_type == "6" || (ctx.ad_type == "16" || ctx.ad_type == "17"))))

pub creative_cdn_conv : Context → String → String → String
creative_cdn_conv ctx url domestic_cdn =
    if ctx.country == "CN" && not (domestic_cdn == "") then domestic_cdn else url

-- the sum over the map, in the order of the walk
pub sum_freq : Dict ℤ → ℤ
sum_freq [] = pos 0
sum_freq ((k, n) ∷ m) = n +ℤ sum_freq m

pub user_freq_cap : Context → ℤ → Bool
unfolding sum_freq
user_freq_cap ctx limit =
    if ctx.integral_wall
    then true
    else elim ctx.freq_info.freq_map [ none ↦ true | some m ↦ ltb_ℤ (sum_freq m) limit ]

-- (inCap, isFirst)
unfoldable pub in_freq_cap : Context → String → ℤ → Bool × Bool
in_freq_cap ctx key limitation =
    if ctx.integral_wall then (true, true) else elim ctx.freq_info.freq_map [
      | none ↦ (true, true)
      | some m ↦ elim (lookup key m) [
        | none ↦ (true, true)
        | some cnt ↦ if leb_ℤ limitation cnt then (false, false) else (true, false)
      ]
    ]

unfoldable pub pre_click_in_freq_cap : Context → String → ℤ → Bool
pre_click_in_freq_cap ctx key limitation = elim ctx.freq_info.p_freq_map [
  | none ↦ true
  | some m ↦ elim (lookup key m) [ none ↦ true | some cnt ↦ ltb_ℤ cnt limitation ]
]

unfoldable pub video_in_complete_cap : Context → ℤ → Bool
video_in_complete_cap ctx limit =
    if eqb_ℤ limit minus_one
    then true
    else if eqb_ℤ limit (pos 0)
    then false
    else ltb_ℤ ctx.freq_info.v_completes limit

-- VideoInRequestCap, which is switched off
unfoldable pub video_in_request_cap : Context → Bool
video_in_request_cap ctx = true

-- IsWifi
unfoldable pub is_wifi : Context → Bool
is_wifi ctx =
    if ctx.platform == "Android" && ctx.nt == "1"
    then true
    else ctx.platform == "iOS" && ctx.nt == "5"

-- IsIosInstalledPkg
unfoldable pub is_ios_installed_pkg : Context → String → Bool
is_ios_installed_pkg ctx pkg = elim ctx.conv_pkg_set [
  | none ↦ false
  | some pkgs ↦ ctx.platform == "iOS" && (ltb 0 (length pkgs) && has_text pkg pkgs)
]

-- What the cache gives to GetFreq: the counts of a key, or none on an error, and for a rewarded video
-- the packages of the user and how many videos were watched to the end.
pub record CacheReads : Type 0 where
  pub all_freq : String → Option (Dict ℤ)
  pub conv_pkgs : Option (List String)
  pub completes : ℤ

-- GetFreq
pub get_freq : CacheReads → Context → Context
get_freq reads ctx =
    let freq_key : String = str_join_underline ("freq" ∷ ctx.user_id ∷ ctx.ad_type ∷ []) in
    let keyed = record ctx { freq_info = record ctx.freq_info { freq_key = freq_key } } in
    if is_wugan ctx
    then record keyed {
      freq_info = record keyed.freq_info { p_freq_map = reads.all_freq keyed.freq_info.p_freq_key };
    }
    else if is_rewarded_video ctx
    then record keyed {
      conv_pkg_set = reads.conv_pkgs;
      freq_info = record keyed.freq_info { v_completes = reads.completes };
    }
    else record keyed { freq_info = record keyed.freq_info { freq_map = reads.all_freq freq_key } }

-- the expiry that IncrPreClickFreq computes from time.Now().Unix()
pub pre_click_expire : Context → ℕ → ℕ
pre_click_expire ctx unix =
    if ctx.country == "CN" && ctx.platform == "iOS"
    then 43200 - unix % 43200
    else 86400 - unix % 86400

-- `some` of the arguments of cache.IncrFreq, `none` where the function returns before it
pub incr_pre_click_freq : Context → ℕ → Option (ℕ × String × List String × ℕ)
unfolding pre_click_expire
incr_pre_click_freq ctx unix =
    if ctx.integral_wall || length ctx.freq_info.p_freq_fields == 0
    then none
    else some (
      ctx.user_hash,
      ctx.freq_info.p_freq_key,
      ctx.freq_info.p_freq_fields,
      pre_click_expire ctx unix,
    )

-- Debug
unfoldable pub debug : String → String → Context → Context
debug id msg ctx =
    if ctx.is_demsg && not (msg == "")
    then record ctx {
      demsg =
          insert msg (elim (lookup msg ctx.demsg) [ none ↦ [] | some ids ↦ ids ] ++ id ∷ [])
            ctx.demsg;
    }
    else ctx
