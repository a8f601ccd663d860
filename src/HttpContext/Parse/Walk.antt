-- ===== src/HttpContext/Parse/Walk.antt =====
-- NewContext of http_context/http_context.go: the walk over ctxInitHelper, and what follows it.
-- `Fresh` are the fields that the handlers set and those set after them.
use real_api_server.Prelude.{
  String, ◌&&◌, Option, none, some, List, [], ◌∷◌, ◌==◌, nat_eq, string_eq, if◌then◌else◌,
}
use real_api_server.Prelude.Int.{ℤ, pos, negsuc, eqb_ℤ}
use real_api_server.Prelude.Dict.{Dict}
use real_api_server.HttpContext.Parse.{
  GoText, HttpRequest, Params, unset, Handler, ParamError, Parsed, err, ok,
}
use real_api_server.HttpContext.Parse.Handlers.{handle}
use real_api_server.HttpContext.Parse.Forms.{get, str_join_underline}

pub record Fresh : Type 0 where
  pub params : Params
  pub phase : String
  pub version : String
  pub ck : String
  pub ran : String
  pub gaid : String
  pub gaid_md5 : String
  pub gaid_sha1 : String
  pub idfa : String
  pub idfa_md5 : String
  pub idfa_sha1 : String
  pub aid : String
  pub aid_md5 : String
  pub aid_sha1 : String
  pub method : String
  pub ad_cat : String
  pub server_id : String
  pub fuyu_user_id : String
  pub channel : String
  pub osv : String
  pub sdk_version : String
  pub ip : String
  pub test_encode : String
  pub mcc : String
  pub mnc : String
  pub ios_conv_key : String
  pub conv_pkg_set : Option (List String)
  pub server_cid_key : String
  pub server_cid_map : Dict ℤ
  pub freq_key : String
  pub freq_map : Option (Dict ℤ)
  pub p_freq_key : String
  pub p_freq_map : Option (Dict ℤ)
  pub v_complete_key : String
  pub v_request_key : String
  pub v_freq_field : String

pub data NewContext : Type 0 where
  unexpected_method : NewContext
  bad_param : ParamError → NewContext
  made : Fresh → NewContext

module _ (go : GoText) (r : HttpRequest) (form : Dict String) (rand8 : String) where
  -- the loop `for k, f := range ctxInitHelper`, the keys coming in the order of the list
  unfoldable pub walk : List Handler → Params → Parsed
  unfolding handle
  walk [] s = ok s
  walk (k ∷ ks) s = elim (handle go r form rand8 k s) [ err e ↦ err e | ok s' ↦ walk ks s' ]

-- fmt.Sprintf("%x", hash) of an id, left empty for an empty one
pub hex_of : (String → String) → String → String
hex_of hash v = if v == "" then "" else hash v

module _ (go : GoText) (form : Dict String) where
  -- initByReflectString, and the rest of NewContext
  unfoldable pub finish : Params → Fresh
  unfolding get hex_of str_join_underline
  finish s =
      let on_ios = get form "platform" == "iOS" in
      record {
        params = record s {
          platform = get form "platform";
          img_rule =
              if get form "platform" == "Android" && eqb_ℤ s.img_rule (pos 3)
              then negsuc 1
              else s.img_rule;
        };
        phase = "Un-inited";
        version = get form "version";
        ck = get form "ck";
        ran = get form "ran";
        gaid = get form "gaid";
        gaid_md5 = hex_of go.md5_hex (get form "gaid");
        gaid_sha1 = hex_of go.sha1_hex (get form "gaid");
        idfa = get form "idfa";
        idfa_md5 = hex_of go.md5_hex (get form "idfa");
        idfa_sha1 = hex_of go.sha1_hex (get form "idfa");
        aid = get form "aid";
        aid_md5 = hex_of go.md5_hex (get form "aid");
        aid_sha1 = hex_of go.sha1_hex (get form "aid");
        method = get form "method";
        ad_cat = get form "adcat";
        server_id = get form "server_id";
        fuyu_user_id = get form "fuyu_user_id";
        channel = get form "channel";
        osv = get form "osv";
        sdk_version = get form "sv";
        ip = get form "ip";
        test_encode = get form "test_encode";
        mcc = get form "mcc";
        mnc = get form "mnc";
        ios_conv_key = if on_ios then str_join_underline ("iCONV" ∷ s.user_id ∷ []) else "";
        conv_pkg_set = if on_ios then some [] else none;
        server_cid_key = str_join_underline ("cfreq" ∷ s.user_id ∷ []);
        server_cid_map = [];
        freq_key = str_join_underline ("freq" ∷ s.user_id ∷ s.ad_type ∷ []);
        freq_map = some [];
        p_freq_key = str_join_underline ("pfreq" ∷ s.user_id ∷ []);
        p_freq_map = some [];
        v_complete_key = str_join_underline ("vfreq" ∷ s.user_id ∷ s.ad_type ∷ []);
        v_request_key = str_join_underline ("req" ∷ s.user_id ∷ []);
        v_freq_field = str_join_underline ("slot" ∷ s.slot_id ∷ []);
      }

-- NewContext once the form is chosen; `ks` is the order of the walk
unfoldable pub of_form : GoText → HttpRequest → String → List Handler → Dict String → NewContext
unfolding walk finish
of_form go r rand8 ks form = elim (walk go r form rand8 ks unset) [
  | err e ↦ bad_param e
  | ok s ↦ made (finish go form s)
]

unfoldable pub new_context : GoText → HttpRequest → String → List Handler → NewContext
unfolding of_form
new_context go r rand8 ks =
    if r.method == "GET"
    then of_form go r rand8 ks r.form
    else if r.method == "POST"
    then of_form go r rand8 ks r.post_form
    else unexpected_method
