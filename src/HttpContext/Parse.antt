-- ===== src/HttpContext/Parse.antt =====
-- The data of NewContext of http_context/http_context.go: the handlers of ctxInitHelper and the walk over that map,
-- whose order Go leaves open. `Params` are the fields of Context that the handlers set.
pub mod Forms
pub mod Handlers
pub mod Walk
pub mod Orders
pub mod Laws
pub mod Made
pub mod Values
use real_api_server.Prelude.{ℕ, String, Bool, false, Option, none, List, [], ◌∷◌}
use real_api_server.Bloom.{BloomFilter}
use real_api_server.Prelude.Int.{ℤ, pos}
use real_api_server.Prelude.Dict.{Dict}

-- What the code calls: strconv.Atoi (the number and whether there is no error), functions of
-- strings, url, base64, json, fmt with md5 and sha1, len in bytes, the regular expressions, and
-- aes.Decrypt and the md5 of GetUserHash.
pub record GoText : Type 0 where
  pub atoi : String → ℤ × Bool
  pub to_lower : String → String
  pub to_upper : String → String
  pub has_prefix : String → String → Bool
  pub contains : String → String → Bool
  -- strings.Replace of all occurrences, in the text that stands first
  pub replace : String → String → String → String
  pub split : String → List String
  pub byte_len : String → ℕ
  pub query_unescape : String → Option String
  pub query_escape : String → String
  pub is_base64 : String → Bool
  pub base64_decode : String → Option String
  pub base64_bytes : String → Option (List ℕ)
  -- aes.Decrypt, `none` where the size that it reads from the last block is out of range: a panic
  pub aes_decrypt : String → Option String
  pub unmarshal : String → Option (Dict String)
  pub strip_key_word : String → String
  pub md5_hash : String → String
  pub md5_hex : String → String
  pub sha1_hex : String → String

pub record HttpRequest : Type 0 where
  pub method : String
  -- r.Form and r.PostForm, each key with its first value
  pub form : Dict String
  pub post_form : Dict String
  pub accept_encoding : String
  pub ct_accept_encoding : String

pub record Params : Type 0 where
  pub req_id : String
  pub auto_tks : Bool
  pub ad_num : ℤ
  pub is_debug : Bool
  pub is_demsg : Bool
  pub platform : String
  pub country : String
  pub freq_days_in_redis : ℕ
  pub pre_freq_days_in_redis : ℕ
  pub region : String
  pub city : String
  pub button_text : String
  pub use_gzip : Bool
  pub use_gzip_ct : Bool
  pub slot_id : String
  pub ad_type : String
  pub creative_type : String
  pub notify_from : String
  pub lang : String
  pub img_rule : ℤ
  pub user_id : String
  pub user_hash : ℤ
  pub possiable_args : String
  pub img_w : ℤ
  pub img_h : ℤ
  pub screen_w : ℤ
  pub screen_h : ℤ
  pub integral_wall : Bool
  pub api_version : String
  pub use_aes : Bool
  pub installed_pkg : String
  pub note : Dict String
  pub ct_bf : Option BloomFilter
  pub ng_bf : Option BloomFilter
  pub key_words : List String
  pub match_in : String
  pub pkg_name : String
  pub ua : String
  pub carrier : String
  pub cid_map : Dict ℤ
  pub network : String
  pub subs : Bool
  pub device : String
  pub ad_w : ℤ
  pub ad_h : ℤ
  pub output : String
  pub req_origin : String

-- the fields of `&Context{...}` before the walk
abbrev pub unset : Params
unset = record {
  req_id = "";
  auto_tks = false;
  ad_num = pos 0;
  is_debug = false;
  is_demsg = false;
  platform = "";
  country = "";
  freq_days_in_redis = 0;
  pre_freq_days_in_redis = 0;
  region = "";
  city = "";
  button_text = "";
  use_gzip = false;
  use_gzip_ct = false;
  slot_id = "";
  ad_type = "";
  creative_type = "";
  notify_from = "";
  lang = "";
  img_rule = pos 0;
  user_id = "";
  user_hash = pos 0;
  possiable_args = "";
  img_w = pos 0;
  img_h = pos 0;
  screen_w = pos 0;
  screen_h = pos 0;
  integral_wall = false;
  api_version = "";
  use_aes = false;
  installed_pkg = "";
  note = [];
  ct_bf = none;
  ng_bf = none;
  key_words = [];
  match_in = "";
  pkg_name = "";
  ua = "";
  carrier = "";
  cid_map = [];
  network = "";
  subs = false;
  device = "";
  ad_w = pos 0;
  ad_h = pos 0;
  output = "";
  req_origin = "";
}

-- the keys of ctxInitHelper
pub data Handler : Type 0 where
  on_req_id : Handler
  on_auto_tks : Handler
  on_adnum : Handler
  on_isdebug : Handler
  on_os : Handler
  on_country : Handler
  on_use_gzip : Handler
  on_slot_id : Handler
  on_f : Handler
  on_dml : Handler
  on_lang : Handler
  on_img_rule : Handler
  on_user_id : Handler
  on_possiable_args : Handler
  on_imgw : Handler
  on_screen_w : Handler
  on_integral_wall : Handler
  on_installed_pkg : Handler
  on_note : Handler
  on_ct_bloom_filter : Handler
  on_ngp_bloom_filter : Handler
  on_keywords : Handler
  on_pn : Handler
  on_ua : Handler
  on_carrier : Handler
  on_cids : Handler
  on_nt : Handler
  on_subs : Handler
  on_dt : Handler
  on_adw : Handler
  on_output : Handler
  on_req_origin : Handler

-- how a handler stops the walk: with an error, or by the panic of aes.Decrypt
pub data ParamError : Type 0 where
  slot_id_empty : ParamError
  no_galaxy_j7 : ParamError
  bad_user_hash : ParamError
  bad_note : ParamError
  decrypt_panics : ParamError

pub data Parsed : Type 0 where
  err : ParamError → Parsed
  ok : Params → Parsed

-- every handler once, in the order of the source
abbrev pub handlers : List Handler
handlers =
    on_req_id ∷ on_auto_tks ∷ on_adnum ∷ on_isdebug ∷ on_os ∷ on_country ∷ on_use_gzip ∷ on_slot_id
    ∷ on_f ∷ on_dml ∷ on_lang ∷ on_img_rule ∷ on_user_id ∷ on_possiable_args ∷ on_imgw ∷ on_screen_w
    ∷ on_integral_wall ∷ on_installed_pkg ∷ on_note ∷ on_ct_bloom_filter ∷ on_ngp_bloom_filter
    ∷ on_keywords ∷ on_pn ∷ on_ua ∷ on_carrier ∷ on_cids ∷ on_nt ∷ on_subs ∷ on_dt ∷ on_adw
    ∷ on_output ∷ on_req_origin ∷ []
