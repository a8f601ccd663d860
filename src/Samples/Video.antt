-- ===== src/Samples/Video.antt =====
-- A video slot, an offer with a video that the client has, and what videoAdHandler reads.
use real_api_server.Prelude.{none, some, [], ◌∷◌, true, false}
use real_api_server.Prelude.Int.{ℤ, pos}
use real_api_server.Samples.{whole_floats, request, offer, slot}
use real_api_server.HttpContext.{Context}
use real_api_server.RawAd.{RawAd}
use real_api_server.RawAd.Image.{Img}
use real_api_server.RawAd.Videos.{Video}
use real_api_server.Retrieval.VideoV4.Ads.{VideoEnv}
use real_api_server.Retrieval.NativeV4.{NativeEnv}

abbrev pub landscape : Video
landscape = record { id = "mp4.1"; old_id = ""; w = pos 16; h = pos 9; url = "u" }

abbrev picture : Img
picture = record {
  id = "jpg.1";
  old_id = "";
  width = pos 190;
  height = pos 100;
  url = "p";
  lang = "ALL";
}

abbrev pub video_offer : RawAd ℤ
video_offer = record (offer "a" false) {
  channel_type = "4" ∷ [];
  icons = ("ALL", picture ∷ []) ∷ [];
  creatives = ("ALL", picture ∷ []) ∷ [];
  videos = ("ALL", landscape ∷ []) ∷ [];
}

abbrev pub video_request : Context
video_request = record request {
  ad_type = "7";
  img_h = pos 100;
  img_w = pos 190;
  cid_map = "mp4.1" ∷ "jpg.1" ∷ [];
}

abbrev pub video_env : VideoEnv whole_floats
video_env = record {
  conf = record {
    ios = record { pre_imp_tks = []; pre_clk_tks = []; post_imp_tks = []; post_clk_tks = [] };
    android = record { pre_imp_tks = []; pre_clk_tks = []; post_imp_tks = []; post_clk_tks = [] };
  };
  store = some (("77", record (slot "77") { max_impression = pos 9 }) ∷ []);
  reads = record { all_freq = λ k. none; conv_pkgs = none; completes = pos 0 };
  has_dnf = true;
  index = λ conds. video_offer ∷ [];
  ask = λ raws ctx. none;
  contains = λ s k. false;
  major = λ v. v;
  fmt_e = λ x. "";
  fmt_po = λ x. "";
  has_prefix = λ s k. false;
  split = λ s. s ∷ [];
  rate_coin = pos 0;
  cap_coin = pos 0;
  coins = λ raw. pos 0;
  pics = λ raw i j. true;
  icon_draws = λ raw i. 0;
  shuffled = λ i. 0;
  draw = λ i l. 0;
}

abbrev pub native_env : NativeEnv whole_floats
native_env = record {
  conf = video_env.conf;
  store = some (("77", record (slot "77") { format = 8 }) ∷ []);
  reads = video_env.reads;
  has_dnf = true;
  index = λ conds. record video_offer { channel_type = "3" ∷ [] } ∷ [];
  rank_conf = record { rank_apis = "r" ∷ []; imp_rank_api = "i" };
  i_host = 0;
  ask = λ api user post. none;
  atoi = λ t. none;
  contains = λ s k. false;
  major = λ v. v;
  fmt_e = λ x. "";
  fmt_po = λ x. "";
  has_prefix = λ s k. false;
  split = λ s. s ∷ [];
  has_vast = λ adv. true;
  rate_coin = pos 0;
  coins = λ raw. pos 0;
  pics = λ raw n i j. true;
  icon_draws = λ raw i. 0;
  shuffled = λ i. 0;
}
