-- ===== src/HttpContext/Parse/Handlers.antt =====
-- The handlers of ctxInitHelper in http_context/http_context.go.
use real_api_server.Prelude.{
  String, true, not, ◌&&◌, ◌||◌, none, some, [], ◌==◌, nat_eq, string_eq, if◌then◌else◌,
}
use real_api_server.Bloom.{new_bloom_filter}
use real_api_server.Prelude.Int.{pos, negsuc, leb_ℤ, eqb_ℤ}
use real_api_server.Prelude.Dict.{Dict}
use real_api_server.HttpContext.Parse.{
  GoText, HttpRequest, Params, Handler, on_req_id, on_auto_tks, on_adnum, on_isdebug, on_os,
  on_country, on_use_gzip, on_slot_id, on_f, on_dml, on_lang, on_img_rule, on_user_id,
  on_possiable_args, on_imgw, on_screen_w, on_integral_wall, on_installed_pkg, on_note,
  on_ct_bloom_filter, on_ngp_bloom_filter, on_keywords, on_pn, on_ua, on_carrier, on_cids, on_nt,
  on_subs, on_dt, on_adw, on_output, on_req_origin, slot_id_empty, no_galaxy_j7, bad_user_hash,
  bad_note, decrypt_panics, Parsed, err, ok,
}
use real_api_server.HttpContext.Parse.Forms.{
  possiable_keys, join, or_text, text_or, lower_or, get, normalize_region, cid_pairs, key_words_of,
  button_text_of, args_of, is_galaxy_j7, hash_text,
}

-- A request and the form that NewContext chose for it; `rand8` is what Rand8Bytes gives.
module _ (go : GoText) (r : HttpRequest) (form : Dict String) (rand8 : String) where
  -- one handler of ctxInitHelper
  unfoldable pub handle : Handler → Params → Parsed
  unfolding get or_text text_or lower_or
  handle on_req_id s = ok (record s { req_id = rand8 })
  handle on_auto_tks s =
      ok (record s { auto_tks = if get form "auto_tks" == "1" then true else s.auto_tks })
  handle on_adnum s =
      let n = (go.atoi (get form "adnum")).0 in
      ok (record s { ad_num = if leb_ℤ n (pos 0) then pos 1 else n })
  handle on_isdebug s =
      let debugs = get form "isdebug" == "2" in
      ok (record s {
        is_debug = if debugs then true else s.is_debug;
        is_demsg = if debugs && get form "isdemsg" == "1" then true else s.is_demsg;
      })
  handle on_os s = ok (record s { platform = or_text s.platform (get form "os") })
  handle on_country s = ok (record s {
    country = get form "country";
    freq_days_in_redis = 1;
    pre_freq_days_in_redis = 1;
    region = normalize_region go (get form "region");
    city = normalize_region go (get form "city");
    button_text = button_text_of go form;
  })
  handle on_use_gzip s = ok (record s {
    use_gzip = if go.contains r.accept_encoding "gzip" then true else s.use_gzip;
    use_gzip_ct = if r.ct_accept_encoding == "gzip" then true else s.use_gzip_ct;
  })
  handle on_slot_id s =
      let id = or_text (get form "slot_id") (get form "token") in
      if id == ""
      then err slot_id_empty
      else ok (record s {
        slot_id = id;
        ad_type = get form "adtype";
        creative_type = get form "creativetype";
      })
  handle on_f s = ok (record s {
    notify_from = or_text (get form "f") (if get form "platform" == "iOS" then "c" else "b");
  })
  handle on_dml s = if is_galaxy_j7 go form then err no_galaxy_j7 else ok s
  handle on_lang s =
      ok (record s { lang = or_text (or_text (get form "lang") (get form "country")) "ALL" })
  handle on_img_rule s =
      let rule = (go.atoi (get form "img_rule")).0 in
      ok (record s { img_rule = if eqb_ℤ rule (pos 0) then negsuc 1 else rule })
  handle on_user_id s =
      let hash = go.atoi (hash_text go form) in
      if hash.1
      then ok (record s { user_id = get form "user_id"; user_hash = hash.0 })
      else err bad_user_hash
  handle on_possiable_args s =
      ok (record s { possiable_args = join "&" (args_of go form possiable_keys) })
  handle on_imgw s =
      ok (record s { img_w = (go.atoi (get form "imgw")).0; img_h = (go.atoi (get form "imgh")).0 })
  handle on_screen_w s = ok (record s {
    screen_w = (go.atoi (get form "screen_w")).0;
    screen_h = (go.atoi (get form "screen_h")).0;
  })
  handle on_integral_wall s = ok (record s { integral_wall = get form "integral_wall" == "1" })
  handle on_installed_pkg s =
      let aes = not (get form "api_version" == "v1") in
      let spn = get form "spn" in
      if spn == ""
      then ok (record s { api_version = get form "api_version"; use_aes = aes })
      else elim (if aes then go.aes_decrypt spn else some spn) [
        | none ↦ err decrypt_panics
        | some text ↦ ok (record s {
          api_version = get form "api_version";
          use_aes = aes;
          installed_pkg = go.to_lower text;
        })
      ]
  handle on_note s =
      let note_aes = get form "note" in
      if note_aes == "" then ok s else elim (go.aes_decrypt note_aes) [
        | none ↦ err decrypt_panics
        | some text ↦ elim (go.unmarshal text) [
          | none ↦ err bad_note
          | some note ↦ ok (record s { note = note })
        ]
      ]
  handle on_ct_bloom_filter s =
      let base64str = get form "ctbf" in
      ok (record s {
        ct_bf = if base64str == "" then s.ct_bf else new_bloom_filter go.base64_bytes base64str;
      })
  handle on_ngp_bloom_filter s =
      let base64str = get form "ngbf" in
      ok (record s {
        ng_bf = if base64str == "" then s.ng_bf else new_bloom_filter go.base64_bytes base64str;
      })
  handle on_keywords s =
      let kw = get form "keywords" in
      ok (record s {
        key_words = if kw == "" then s.key_words else key_words_of go (go.split (go.to_lower kw));
        match_in = if kw == "" then s.match_in else go.to_lower (get form "match");
      })
  handle on_pn s = ok (record s { pkg_name = go.replace (get form "pn") "_" "-" })
  handle on_ua s =
      let raw_ua = get form "ua" in
      ok (record s {
        ua =
            if go.is_base64 raw_ua
            then text_or (go.base64_decode raw_ua) s.ua
            else text_or (go.query_unescape raw_ua) raw_ua;
      })
  handle on_carrier s =
      let raw_carrier = get form "carrier" in
      ok (record s {
        carrier =
            if go.is_base64 raw_carrier
            then lower_or go.to_lower (go.base64_decode raw_carrier) s.carrier
            else raw_carrier;
      })
  handle on_cids s = ok (record s { cid_map = cid_pairs go (go.split (get form "cids")) [] })
  handle on_nt s = ok (record s {
    network =
        if not (get form "nt" == "") && (go.atoi (get form "nt")).1
        then get form "nt"
        else s.network;
  })
  handle on_subs s = ok (record s { subs = if get form "subs" == "1" then true else s.subs })
  handle on_dt s =
      let dt = get form "dt" in
      ok (record s {
        device = if dt == "phone" || (dt == "ipad" || dt == "tablet") then dt else s.device;
      })
  handle on_adw s =
      ok (record s { ad_w = (go.atoi (get form "ad_w")).0; ad_h = (go.atoi (get form "ad_h")).0 })
  handle on_output s = ok (record s { output = or_text (get form "output") "json" })
  handle on_req_origin s = ok (record s { req_origin = or_text (get form "req_origin") "sdk" })
