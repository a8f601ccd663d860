-- ===== src/HttpContext/Tests.antt =====
-- A concrete request and its counters.
use real_api_server.Prelude.{
  ◌≡◌, ◌↔◌, true, false, none, some, List, [], ◌∷◌, String, inl, refl, arith, ◌==◌, string_eq,
  if◌then◌else◌,
}
use real_api_server.Prelude.Int.{pos}
use real_api_server.Prelude.Dict.{Dict, lookup}
use real_api_server.HttpContext.Parse.Forms.{is_galaxy_j7, hash_text}
use real_api_server.HttpContext.Parse.{
  GoText, HttpRequest, unset, handlers, Handler, on_req_id, on_auto_tks, on_adnum, on_isdebug,
  on_os, on_country, on_use_gzip, on_slot_id, on_f, on_dml, on_lang, on_img_rule, on_user_id,
  on_possiable_args, on_imgw, on_screen_w, on_integral_wall, on_installed_pkg, on_note,
  on_ct_bloom_filter, on_ngp_bloom_filter, on_keywords, on_pn, on_ua, on_carrier, on_cids, on_nt,
  on_subs, on_dt, on_adw, on_output, on_req_origin,
}
use real_api_server.HttpContext.Parse.Walk.{
  NewContext, made, bad_param, unexpected_method, Fresh, finish, new_context,
}
use real_api_server.HttpContext.Parse.Laws.{Covers}
use real_api_server.HttpContext.Parse.Made.{
  Acceptable, new_context-any_order, new_context-Acceptable,
}
use real_api_server.HttpContext.Parse.Values.{Valued, new_context-Valued}

-- A GET request for slot 77 from an iPhone, with another platform under "os".
abbrev plain_text : GoText
plain_text = record {
  atoi =
      λ s. if s == "5" then (pos 5, true) else if s == "3" then (pos 3, true) else (pos 0, false);
  to_lower = λ s. s;
  to_upper = λ s. s;
  has_prefix = λ s t. false;
  contains = λ s t. false;
  replace = λ s t u. s;
  split = λ s. s ∷ [];
  byte_len = λ s. if s == "CN" then 2 else 0;
  query_unescape = λ s. some s;
  query_escape = λ s. s;
  is_base64 = λ s. false;
  base64_decode = λ s. none;
  base64_bytes = λ s. none;
  aes_decrypt = λ s. some s;
  unmarshal = λ s. none;
  strip_key_word = λ s. s;
  md5_hash = λ s. "5";
  md5_hex = λ s. s;
  sha1_hex = λ s. s;
}

abbrev iphone_form : Dict String
iphone_form =
    ("slot_id", "77")
    ∷ ("platform", "iOS")
    ∷ ("os", "Android")
    ∷ ("user_id", "u")
    ∷ ("img_rule", "3")
    ∷ ("adnum", "5")
    ∷ ("dt", "phone")
    ∷ []

abbrev iphone_request : HttpRequest
iphone_request = record {
  method = "GET";
  form = iphone_form;
  post_form = [];
  accept_encoding = "gzip";
  ct_accept_encoding = "";
}

-- the context, or an empty one
abbrev context_of : NewContext → Fresh
context_of (made f) = f
context_of (bad_param e) = finish plain_text iphone_form unset
context_of unexpected_method = finish plain_text iphone_form unset

abbrev iphone_context : Fresh
iphone_context = context_of (new_context plain_text iphone_request "12345678" handlers)

-- The handlers from last to first.
abbrev backwards : List Handler
backwards =
    on_req_origin ∷ on_output ∷ on_adw ∷ on_dt ∷ on_subs ∷ on_nt ∷ on_cids ∷ on_carrier ∷ on_ua
    ∷ on_pn ∷ on_keywords ∷ on_ngp_bloom_filter ∷ on_ct_bloom_filter ∷ on_note ∷ on_installed_pkg
    ∷ on_integral_wall ∷ on_screen_w ∷ on_imgw ∷ on_possiable_args ∷ on_user_id ∷ on_img_rule
    ∷ on_lang ∷ on_dml ∷ on_f ∷ on_slot_id ∷ on_use_gzip ∷ on_country ∷ on_os ∷ on_isdebug
    ∷ on_adnum ∷ on_auto_tks ∷ on_req_id ∷ []

handlers-Covers : Covers handlers
handlers-Covers on_req_id = ground arith
handlers-Covers on_auto_tks = ground arith
handlers-Covers on_adnum = ground arith
handlers-Covers on_isdebug = ground arith
handlers-Covers on_os = ground arith
handlers-Covers on_country = ground arith
handlers-Covers on_use_gzip = ground arith
handlers-Covers on_slot_id = ground arith
handlers-Covers on_f = ground arith
handlers-Covers on_dml = ground arith
handlers-Covers on_lang = ground arith
handlers-Covers on_img_rule = ground arith
handlers-Covers on_user_id = ground arith
handlers-Covers on_possiable_args = ground arith
handlers-Covers on_imgw = ground arith
handlers-Covers on_screen_w = ground arith
handlers-Covers on_integral_wall = ground arith
handlers-Covers on_installed_pkg = ground arith
handlers-Covers on_note = ground arith
handlers-Covers on_ct_bloom_filter = ground arith
handlers-Covers on_ngp_bloom_filter = ground arith
handlers-Covers on_keywords = ground arith
handlers-Covers on_pn = ground arith
handlers-Covers on_ua = ground arith
handlers-Covers on_carrier = ground arith
handlers-Covers on_cids = ground arith
handlers-Covers on_nt = ground arith
handlers-Covers on_subs = ground arith
handlers-Covers on_dt = ground arith
handlers-Covers on_adw = ground arith
handlers-Covers on_output = ground arith
handlers-Covers on_req_origin = ground arith

backwards-Covers : Covers backwards
backwards-Covers on_req_origin = ground arith
backwards-Covers on_output = ground arith
backwards-Covers on_adw = ground arith
backwards-Covers on_dt = ground arith
backwards-Covers on_subs = ground arith
backwards-Covers on_nt = ground arith
backwards-Covers on_cids = ground arith
backwards-Covers on_carrier = ground arith
backwards-Covers on_ua = ground arith
backwards-Covers on_pn = ground arith
backwards-Covers on_keywords = ground arith
backwards-Covers on_ngp_bloom_filter = ground arith
backwards-Covers on_ct_bloom_filter = ground arith
backwards-Covers on_note = ground arith
backwards-Covers on_installed_pkg = ground arith
backwards-Covers on_integral_wall = ground arith
backwards-Covers on_screen_w = ground arith
backwards-Covers on_imgw = ground arith
backwards-Covers on_possiable_args = ground arith
backwards-Covers on_user_id = ground arith
backwards-Covers on_img_rule = ground arith
backwards-Covers on_lang = ground arith
backwards-Covers on_dml = ground arith
backwards-Covers on_f = ground arith
backwards-Covers on_slot_id = ground arith
backwards-Covers on_use_gzip = ground arith
backwards-Covers on_country = ground arith
backwards-Covers on_os = ground arith
backwards-Covers on_isdebug = ground arith
backwards-Covers on_adnum = ground arith
backwards-Covers on_auto_tks = ground arith
backwards-Covers on_req_id = ground arith

iphone_made : new_context plain_text iphone_request "12345678" handlers ≡ made iphone_context
unfolding new_context lookup is_galaxy_j7 hash_text
iphone_made = refl

new_context-any_order_example :
    new_context plain_text iphone_request "12345678" backwards ≡ made iphone_context
new_context-any_order_example =
    new_context-any_order plain_text iphone_request "12345678" handlers backwards iphone_context
      handlers-Covers backwards-Covers iphone_made

new_context-Acceptable_example :
    ((f : Fresh) × (new_context plain_text iphone_request "12345678" backwards ≡ made f))
    ↔ Acceptable plain_text iphone_form
new_context-Acceptable_example =
    new_context-Acceptable plain_text iphone_request iphone_form "12345678" backwards
      (inl (refl, refl)) backwards-Covers

new_context-Valued_example : Valued plain_text iphone_form iphone_context
new_context-Valued_example =
    new_context-Valued plain_text iphone_request iphone_form "12345678" handlers iphone_context
      (inl (refl, refl)) handlers-Covers iphone_made
