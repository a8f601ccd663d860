-- ===== src/HttpContext/Parse/Orders.antt =====
-- The walk over ctxInitHelper in any order: each handler acts as if it ran alone, so the result is
-- the fields of the handlers that ran, each from its own run.
use real_api_server.Prelude.{
  ℕ, String, Bool, true, false, ◌==◌, nat_eq, string_eq, if◌then◌else◌, ◌≡◌, refl, arith, sym, ap,
  ◌∙◌, Option, not, ◌&&◌, ◌||◌, eq_iff, none, some,
}
use real_api_server.Prelude.Dict.{Dict}
use real_api_server.HttpContext.Parse.{
  GoText, HttpRequest, Params, ParamError, bad_note, decrypt_panics, slot_id_empty, no_galaxy_j7,
  bad_user_hash, unset, Handler, on_req_id, on_auto_tks, on_adnum, on_isdebug, on_os, on_country,
  on_use_gzip, on_slot_id, on_f, on_dml, on_lang, on_img_rule, on_user_id, on_possiable_args,
  on_imgw, on_screen_w, on_integral_wall, on_installed_pkg, on_note, on_ct_bloom_filter,
  on_ngp_bloom_filter, on_keywords, on_pn, on_ua, on_carrier, on_cids, on_nt, on_subs, on_dt,
  on_adw, on_output, on_req_origin, Parsed, err, ok,
}
use real_api_server.Bloom.{new_bloom_filter}
use real_api_server.HttpContext.Parse.Forms.{
  key_words_of, or_text, text_or, lower_or, get, is_galaxy_j7, hash_text,
}
use real_api_server.HttpContext.Parse.Handlers.{handle}

-- A set of handlers.
abbrev pub Ran : Type 0
Ran = Handler → Bool

abbrev pub number : Handler → ℕ
number on_req_id = 0
number on_auto_tks = 1
number on_adnum = 2
number on_isdebug = 3
number on_os = 4
number on_country = 5
number on_use_gzip = 6
number on_slot_id = 7
number on_f = 8
number on_dml = 9
number on_lang = 10
number on_img_rule = 11
number on_user_id = 12
number on_possiable_args = 13
number on_imgw = 14
number on_screen_w = 15
number on_integral_wall = 16
number on_installed_pkg = 17
number on_note = 18
number on_ct_bloom_filter = 19
number on_ngp_bloom_filter = 20
number on_keywords = 21
number on_pn = 22
number on_ua = 23
number on_carrier = 24
number on_cids = 25
number on_nt = 26
number on_subs = 27
number on_dt = 28
number on_adw = 29
number on_output = 30
number on_req_origin = 31

abbrev pub with_handler : Handler → Ran → Ran
with_handler k m j = if number k == number j then true else m j

-- The fields that a handler gives, and what the walk goes on with after it.
abbrev pub given : Parsed → Params
given (err e) = unset
given (ok s) = s

abbrev pub followed : Parsed → Params → Parsed
followed (err e) s = err e
followed (ok unused) s = ok s

refuse :
    (c : Bool) (e : ParamError) (s : Params) (write : Params → Params)
    → (if c then err e else ok (write s))
      ≡ followed (if c then err e else ok s) (write (given (if c then err e else ok s)))
refuse true e s write = refl
refuse false e s write = refl

accept :
    (c : Bool) (e : ParamError) (s : Params) (write : Params → Params)
    → (if c then ok (write s) else err e)
      ≡ followed (if c then ok s else err e) (write (given (if c then ok s else err e)))
accept true e s write = refl
accept false e s write = refl

-- "installed_pkg", which writes fields and may keep one, set it or panic
abbrev spelled : Option String → (String → Params) → Parsed
spelled o write = elim o [ none ↦ err decrypt_panics | some text ↦ ok (write text) ]

pkg_step :
    (c b : Bool) (o : Option String) (base : Params) (set : String → Params)
    (keep write : Params → Params)
    → keep base ≡ write base
    → keep unset ≡ write base
    → (if c
        then ok (keep (if b then given (if c then ok base else spelled o set) else unset))
        else spelled o (λ text. write (set text)))
      ≡ followed
          (if c then ok base else spelled o set)
          (write (given (if c then ok base else spelled o set)))
pkg_step true true o base set keep write h k = ap ok h
pkg_step true false o base set keep write h k = ap ok k
pkg_step false b none base set keep write h k = refl
pkg_step false b (some text) base set keep write h k = refl

-- "note", which may keep its field, set it, refuse it or panic
abbrev noted : Option (Dict String) → (Params → Params) → Parsed
noted o write = elim o [
  | none ↦ err bad_note
  | some note ↦ ok (write (record unset { note = note }))
]

abbrev decrypted : Option String → (String → Option (Dict String)) → (Params → Params) → Parsed
decrypted o read write = elim o [ none ↦ err decrypt_panics | some text ↦ noted (read text) write ]

noted_step :
    (o : Option (Dict String)) (write : Params → Params)
    → noted o write ≡ followed (noted o (λ s. s)) (write (given (noted o (λ s. s))))
noted_step none write = refl
noted_step (some note) write = refl

note_step :
    (c b : Bool) (o : Option String) (read : String → Option (Dict String))
    (write : Params → Params)
    → (if c
        then ok
            (write (if b then given (if c then ok unset else decrypted o read (λ s. s)) else unset))
        else decrypted o read write)
      ≡ followed
          (if c then ok unset else decrypted o read (λ s. s))
          (write (given (if c then ok unset else decrypted o read (λ s. s))))
note_step true true o read write = refl
note_step true false o read write = refl
note_step false b none read write = refl
note_step false b (some text) read write = noted_step (read text) write

-- A handler that may keep its field sets it once and for all: `f` reads the field, `g` writes it.
settle :
    {A : Type 0} (f : Params → A) (g : A → A) (b : Bool) (s : Params)
    → g (f unset) ≡ f s
    → g (g (f unset)) ≡ g (f unset)
    → g (f (if b then s else unset)) ≡ f s
settle f g true s e twice = ap g (sym e) ∙ twice ∙ e
settle f g false s e twice = e

if_twice :
    {A : Type 0} (c : Bool) (v u : A) → (if c then v else if c then v else u) ≡ (if c then v else u)
if_twice true v u = refl
if_twice false v u = refl

else_twice :
    {A : Type 0} (c : Bool) (v u : A) → (if c then if c then u else v else v) ≡ (if c then u else v)
else_twice true v u = refl
else_twice false v u = refl

or_text_twice : (w : String) → or_text (or_text "" w) w ≡ or_text "" w
unfolding or_text
or_text_twice w = ground (arith, eq_iff w "")

text_or_twice :
    (c : Bool) (o : Option String) (u w : String)
    → (if c then text_or o (if c then text_or o u else w) else w) ≡ (if c then text_or o u else w)
unfolding text_or
text_or_twice false o u w = refl
text_or_twice true none u w = refl
text_or_twice true (some v) u w = refl

lower_or_twice :
    (lower : String → String) (c : Bool) (o : Option String) (u w : String)
    → (if c then lower_or lower o (if c then lower_or lower o u else w) else w)
      ≡ (if c then lower_or lower o u else w)
unfolding lower_or
lower_or_twice lower false o u w = refl
lower_or_twice lower true none u w = refl
lower_or_twice lower true (some v) u w = refl

module _ (go : GoText) (r : HttpRequest) (form : Dict String) (rand8 : String) where
  -- The handler on an empty context.
  abbrev pub alone : Handler → Parsed
  alone k = handle go r form rand8 k unset

  -- The fields of a handler that has run, and those of one that has not.
  abbrev pub part : Ran → Handler → Params
  part m k = if m k then given (alone k) else unset

  -- The context once the handlers of `m` have run.
  unfoldable pub set_by : Ran → Params
  set_by m = record {
    req_id = (part m on_req_id).req_id;
    auto_tks = (part m on_auto_tks).auto_tks;
    ad_num = (part m on_adnum).ad_num;
    is_debug = (part m on_isdebug).is_debug;
    is_demsg = (part m on_isdebug).is_demsg;
    platform = (part m on_os).platform;
    country = (part m on_country).country;
    freq_days_in_redis = (part m on_country).freq_days_in_redis;
    pre_freq_days_in_redis = (part m on_country).pre_freq_days_in_redis;
    region = (part m on_country).region;
    city = (part m on_country).city;
    button_text = (part m on_country).button_text;
    use_gzip = (part m on_use_gzip).use_gzip;
    use_gzip_ct = (part m on_use_gzip).use_gzip_ct;
    slot_id = (part m on_slot_id).slot_id;
    ad_type = (part m on_slot_id).ad_type;
    creative_type = (part m on_slot_id).creative_type;
    notify_from = (part m on_f).notify_from;
    lang = (part m on_lang).lang;
    img_rule = (part m on_img_rule).img_rule;
    user_id = (part m on_user_id).user_id;
    user_hash = (part m on_user_id).user_hash;
    possiable_args = (part m on_possiable_args).possiable_args;
    img_w = (part m on_imgw).img_w;
    img_h = (part m on_imgw).img_h;
    screen_w = (part m on_screen_w).screen_w;
    screen_h = (part m on_screen_w).screen_h;
    integral_wall = (part m on_integral_wall).integral_wall;
    api_version = (part m on_installed_pkg).api_version;
    use_aes = (part m on_installed_pkg).use_aes;
    installed_pkg = (part m on_installed_pkg).installed_pkg;
    note = (part m on_note).note;
    ct_bf = (part m on_ct_bloom_filter).ct_bf;
    ng_bf = (part m on_ngp_bloom_filter).ng_bf;
    key_words = (part m on_keywords).key_words;
    match_in = (part m on_keywords).match_in;
    pkg_name = (part m on_pn).pkg_name;
    ua = (part m on_ua).ua;
    carrier = (part m on_carrier).carrier;
    cid_map = (part m on_cids).cid_map;
    network = (part m on_nt).network;
    subs = (part m on_subs).subs;
    device = (part m on_dt).device;
    ad_w = (part m on_adw).ad_w;
    ad_h = (part m on_adw).ad_h;
    output = (part m on_output).output;
    req_origin = (part m on_req_origin).req_origin;
  }

  abbrev pub after : Handler → Params → Parsed
  after k s = followed (alone k) s

  pub handle-set_by :
      (k : Handler) (m : Ran)
      → handle go r form rand8 k (set_by m) ≡ after k (set_by (with_handler k m))
  unfolding handle set_by or_text text_or lower_or
  handle-set_by on_req_id m = refl
  handle-set_by on_auto_tks m = λ i. ok (record (set_by m) {
    auto_tks =
        settle (λ s. s.auto_tks) (λ x. if get form "auto_tks" == "1" then true else x)
          (m on_auto_tks) (part (λ _. true) on_auto_tks) refl
          (if_twice (get form "auto_tks" == "1") _ _) i;
  })
  handle-set_by on_adnum m = refl
  handle-set_by on_isdebug m = λ i. ok (record (set_by m) {
    is_debug =
        settle (λ s. s.is_debug) (λ x. if get form "isdebug" == "2" then true else x) (m on_isdebug)
          (part (λ _. true) on_isdebug) refl (if_twice (get form "isdebug" == "2") _ _) i;
    is_demsg =
        settle (λ s. s.is_demsg)
          (λ x. if get form "isdebug" == "2" && get form "isdemsg" == "1" then true else x)
          (m on_isdebug) (part (λ _. true) on_isdebug) refl
          (if_twice (get form "isdebug" == "2" && get form "isdemsg" == "1") _ _) i;
  })
  handle-set_by on_os m = λ i. ok (record (set_by m) {
    platform =
        settle (λ s. s.platform) (λ x. or_text x (get form "os")) (m on_os) (part (λ _. true) on_os)
          refl (or_text_twice (get form "os")) i;
  })
  handle-set_by on_country m = refl
  handle-set_by on_use_gzip m = λ i. ok (record (set_by m) {
    use_gzip =
        settle (λ s. s.use_gzip) (λ x. if go.contains r.accept_encoding "gzip" then true else x)
          (m on_use_gzip) (part (λ _. true) on_use_gzip) refl
          (if_twice (go.contains r.accept_encoding "gzip") _ _) i;
    use_gzip_ct =
        settle (λ s. s.use_gzip_ct) (λ x. if r.ct_accept_encoding == "gzip" then true else x)
          (m on_use_gzip) (part (λ _. true) on_use_gzip) refl
          (if_twice (r.ct_accept_encoding == "gzip") _ _) i;
  })
  handle-set_by on_slot_id m =
      refuse (or_text (get form "slot_id") (get form "token") == "") slot_id_empty
        (record unset {
          slot_id = or_text (get form "slot_id") (get form "token");
          ad_type = get form "adtype";
          creative_type = get form "creativetype";
        })
        (λ s. record (set_by m) {
          slot_id = s.slot_id;
          ad_type = s.ad_type;
          creative_type = s.creative_type;
        })
  handle-set_by on_f m = refl
  handle-set_by on_dml m = refuse (is_galaxy_j7 go form) no_galaxy_j7 unset (λ s. set_by m)
  handle-set_by on_lang m = refl
  handle-set_by on_img_rule m = refl
  handle-set_by on_user_id m =
      accept ((go.atoi (hash_text go form)).1) bad_user_hash
        (record unset { user_id = get form "user_id"; user_hash = (go.atoi (hash_text go form)).0 })
        (λ s. record (set_by m) { user_id = s.user_id; user_hash = s.user_hash })
  handle-set_by on_possiable_args m = refl
  handle-set_by on_imgw m = refl
  handle-set_by on_screen_w m = refl
  handle-set_by on_integral_wall m = refl
  handle-set_by on_installed_pkg m =
      let aes = not (get form "api_version" == "v1") in
      let base = record unset { api_version = get form "api_version"; use_aes = aes } in
      pkg_step (get form "spn" == "") (m on_installed_pkg)
        (if aes then go.aes_decrypt (get form "spn") else some (get form "spn")) base
        (λ text. record base { installed_pkg = go.to_lower text })
        (λ s. record (set_by m) {
          api_version = get form "api_version";
          use_aes = aes;
          installed_pkg = s.installed_pkg;
        })
        (λ s. record (set_by m) {
          api_version = s.api_version;
          use_aes = s.use_aes;
          installed_pkg = s.installed_pkg;
        })
        refl refl
  handle-set_by on_note m =
      note_step (get form "note" == "") (m on_note) (go.aes_decrypt (get form "note")) go.unmarshal
        (λ s. record (set_by m) { note = s.note })
  handle-set_by on_ct_bloom_filter m = λ i. ok (record (set_by m) {
    ct_bf =
        settle (λ s. s.ct_bf)
          (λ x.
            if get form "ctbf" == "" then x else new_bloom_filter go.base64_bytes (get form "ctbf"))
          (m on_ct_bloom_filter) (part (λ _. true) on_ct_bloom_filter) refl
          (else_twice (get form "ctbf" == "") _ _) i;
  })
  handle-set_by on_ngp_bloom_filter m = λ i. ok (record (set_by m) {
    ng_bf =
        settle (λ s. s.ng_bf)
          (λ x.
            if get form "ngbf" == "" then x else new_bloom_filter go.base64_bytes (get form "ngbf"))
          (m on_ngp_bloom_filter) (part (λ _. true) on_ngp_bloom_filter) refl
          (else_twice (get form "ngbf" == "") _ _) i;
  })
  handle-set_by on_keywords m = λ i. ok (record (set_by m) {
    key_words =
        settle (λ s. s.key_words)
          (λ x.
            if get form "keywords" == ""
            then x
            else key_words_of go (go.split (go.to_lower (get form "keywords"))))
          (m on_keywords) (part (λ _. true) on_keywords) refl
          (else_twice (get form "keywords" == "") _ _) i;
    match_in =
        settle (λ s. s.match_in)
          (λ x. if get form "keywords" == "" then x else go.to_lower (get form "match"))
          (m on_keywords) (part (λ _. true) on_keywords) refl
          (else_twice (get form "keywords" == "") _ _) i;
  })
  handle-set_by on_pn m = refl
  handle-set_by on_ua m = λ i. ok (record (set_by m) {
    ua =
        settle (λ s. s.ua)
          (λ x.
            if go.is_base64 (get form "ua")
            then text_or (go.base64_decode (get form "ua")) x
            else text_or (go.query_unescape (get form "ua")) (get form "ua"))
          (m on_ua) (part (λ _. true) on_ua) refl
          (text_or_twice (go.is_base64 (get form "ua")) (go.base64_decode (get form "ua")) _ _) i;
  })
  handle-set_by on_carrier m = λ i. ok (record (set_by m) {
    carrier =
        settle (λ s. s.carrier)
          (λ x.
            if go.is_base64 (get form "carrier")
            then lower_or go.to_lower (go.base64_decode (get form "carrier")) x
            else get form "carrier")
          (m on_carrier) (part (λ _. true) on_carrier) refl
          (lower_or_twice go.to_lower (go.is_base64 (get form "carrier"))
            (go.base64_decode (get form "carrier")) _ _)
          i;
  })
  handle-set_by on_cids m = refl
  handle-set_by on_nt m = λ i. ok (record (set_by m) {
    network =
        settle (λ s. s.network)
          (λ x.
            if not (get form "nt" == "") && (go.atoi (get form "nt")).1 then get form "nt" else x)
          (m on_nt) (part (λ _. true) on_nt) refl
          (if_twice (not (get form "nt" == "") && (go.atoi (get form "nt")).1) _ _) i;
  })
  handle-set_by on_subs m = λ i. ok (record (set_by m) {
    subs =
        settle (λ s. s.subs) (λ x. if get form "subs" == "1" then true else x) (m on_subs)
          (part (λ _. true) on_subs) refl (if_twice (get form "subs" == "1") _ _) i;
  })
  handle-set_by on_dt m = λ i. ok (record (set_by m) {
    device =
        settle (λ s. s.device)
          (λ x.
            if get form "dt" == "phone" || (get form "dt" == "ipad" || get form "dt" == "tablet")
            then get form "dt"
            else x)
          (m on_dt) (part (λ _. true) on_dt) refl
          (if_twice
            (get form "dt" == "phone" || (get form "dt" == "ipad" || get form "dt" == "tablet")) _
            _)
          i;
  })
  handle-set_by on_adw m = refl
  handle-set_by on_output m = refl
  handle-set_by on_req_origin m = refl
