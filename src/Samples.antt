-- ===== src/Samples.antt =====
-- Test data that the tests of several modules share.
pub mod Pacing
pub mod Video
use real_api_server.Prelude.{◌+◌, ◌/◌, String, Bool, true, false, none, some, [], ◌∷◌}
use real_api_server.Prelude.Int.{
  ℤ, pos, minus_one, ◌+ℤ◌, ◌-ℤ◌, ◌*ℤ◌, quot, pos_part, neg_part, ltb_ℤ, leb_ℤ,
}
use real_api_server.Prelude.Float.{Float64}
use real_api_server.HttpContext.{Context}
use real_api_server.RawAd.{RawAd}
use real_api_server.Ssp.{SlotInfo}

-- Whole numbers in place of floats.
abbrev pub whole_floats : Float64
whole_floats = record {
  F = ℤ;
  of_int = λ n. n;
  to_int = λ n. n;
  add = λ a b. a +ℤ b;
  sub = λ a b. a -ℤ b;
  mul = λ a b. a *ℤ b;
  div = λ a b. quot a (pos_part b);
  abs = λ a. pos (pos_part a + neg_part a);
  less = ltb_ℤ;
  at_most = leb_ℤ;
  literal = λ a b. pos (a / b);
}

abbrev pub request : Context
request = record {
  phase = "";
  is_debug = false;
  is_demsg = false;
  ad_num = pos 2;
  integral_wall = false;
  slot_id = "77";
  ad_type = "1";
  creative_type = "";
  platform = "iOS";
  version = "9.3";
  device = "";
  country = "CN";
  region = "";
  city = "";
  carrier = "";
  channel = "";
  lang = "ALL";
  img_rule = pos 1;
  freq_info = record {
    freq_key = "f";
    freq_map = some (("com.a", pos 3) ∷ []);
    p_freq_key = "p";
    p_freq_fields = "com.a" ∷ [];
    p_freq_map = some (("com.a", pos 1) ∷ []);
    v_completes = pos 0;
  };
  user_id = "u";
  user_hash = 5;
  ad_pkg_name = [];
  ad_cat = "";
  match_in = "";
  key_words = "chess" ∷ [];
  method = "";
  img_h = pos 0;
  img_w = pos 0;
  nrtv = 0;
  ct_bf = none;
  network = "5";
  conv_pkg_set = none;
  demsg = [];
  rank_use_gzip = false;
  offerid = "";
  now = 1000;
  video_screen_type = 0;
  cid_map = [];
  sdk_version = "i-2.8.0";
  idfa = "";
  gaid = "";
  aid = "";
  fuyu_user_id = "f";
  fuyu_phase = "";
  nfy = 0;
  nt = "5";
  pkg_name = "";
  button_text = "";
  video_cache_num = pos 0;
  load_time = pos 0;
  click_time = pos 0;
}

-- An offer with an id, white or not.
abbrev pub offer : String → Bool → RawAd ℤ
offer id white = record {
  id = id;
  channel = "ym";
  uniq_id = id;
  payout = pos 1;
  payout_type = "CPI";
  platform = "iOS";
  product_category = "ddl";
  app_category = [];
  pkg_name = "com.a";
  title_lc = "chess";
  desc_lc = "a game";
  icons = [];
  creatives = [];
  render_imgs = [];
  videos = [];
  image_chosen = none;
  video_chosen = none;
  pkg_pre_click_enable = 1;
  fuyu_enabled = true;
  js_tag_enabled = false;
  wugan_enabled = true;
  targets = [];
  channel_type = [];
  offer_target_slot = [];
  carrier = [];
  pre_rate = pos 1;
  traffic_rate = pos 1;
  pacing = pos 0;
  ct_bloom_index = [];
  is_t = white;
  attach_args = [];
  file_size = pos 0;
  track_link = "";
}

abbrev pub slot : String → SlotInfo ℤ
slot id = record {
  id_str = id;
  app_id = pos 4;
  format = 7;
  templates = [];
  slot_switch = 1;
  impression_rate = pos 1;
  white_list_filter = "ddl" ∷ [];
  pkg_black_map = none;
  ad_network_black_map = some (("irs", true) ∷ []);
  ad_network_white_map = none;
  offer_black_map = none;
  max_impression = pos 0;
  max_complete = minus_one;
  video_freq_cap = minus_one;
  ad_cache_num = pos 1;
  slot_imp_num = pos 0;
  black_list_filter = [];
  fb_id = "fb";
  admob_id = "";
  pre_click = 2;
  rewarded_currency = "";
  rewarded_amount = "5";
  video_screen_type = pos 1;
  click_time = pos 0;
  is_inner = pos 1;
  load_time = pos 1;
  button_color = "#1adfa3";
  video_sort = [];
  video_integration = [];
  subscription_switch = 1;
  subscription_sdks = [];
  tb_status = 1;
  update_time = pos 500;
  pre_num = pos 0;
  pre_num_inited = false;
  ad_network_black_list = [];
  ad_network_white_list = [];
  offer_black_list = [];
  pkg_black_list = [];
  brothers = "78" ∷ [];
}
