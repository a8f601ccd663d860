-- ===== src/HttpContext/Parse/Made.antt =====
-- What NewContext makes of a request, whatever order Go chooses for the walk over ctxInitHelper.
use real_api_server.Prelude.{
  String, Bool, true, false, List, ◌==◌, not, nat_eq, string_eq, if◌then◌else◌, ◌≡◌, ◌≢◌, ◌↔◌, ◌⊎◌,
  refl, Option, arith, sym, ap, ◌∙◌, eq_iff, Bool-cases, inl, inr, none, some, subst,
}
use real_api_server.Prelude.Dict.{Dict}
use real_api_server.HttpContext.Parse.{
  GoText, HttpRequest, Params, unset, Handler, on_req_id, on_auto_tks, on_adnum, on_isdebug, on_os,
  on_country, on_use_gzip, on_slot_id, on_f, on_dml, on_lang, on_img_rule, on_user_id,
  on_possiable_args, on_imgw, on_screen_w, on_integral_wall, on_installed_pkg, on_note,
  on_ct_bloom_filter, on_ngp_bloom_filter, on_keywords, on_pn, on_ua, on_carrier, on_cids, on_nt,
  on_subs, on_dt, on_adw, on_output, on_req_origin, ParamError, Parsed, err, ok, slot_id_empty,
  no_galaxy_j7, bad_user_hash, bad_note, decrypt_panics,
}
use real_api_server.HttpContext.Parse.Forms.{or_text, get, is_galaxy_j7, hash_text}
use real_api_server.HttpContext.Parse.Handlers.{handle}
use real_api_server.HttpContext.Parse.Walk.{
  walk, NewContext, made, bad_param, unexpected_method, of_form, new_context, finish, Fresh,
}
use real_api_server.HttpContext.Parse.Orders.{alone}
use real_api_server.HttpContext.Parse.Laws.{Covers, whole, Clean, walk-ok, walk-Clean}

-- The form that the method of the request chooses.
abbrev pub Chosen : HttpRequest → Dict String → Type 0
Chosen r form = (r.method ≡ "GET") × (form ≡ r.form) ⊎ (r.method ≡ "POST") × (form ≡ r.post_form)

made_of :
    (p : Parsed) (rest : Params → Fresh) (f : Fresh)
    → (elim p [ err e ↦ bad_param e | ok s ↦ made (rest s) ]) ≡ made f
    → (s : Params) × (p ≡ ok s) × (f ≡ rest s)
made_of (err e) rest f h = cc
made_of (ok s) rest f h = (s, refl, cc)

no_form :
    (on_get on_post : Bool) (n m : NewContext) (f : Fresh)
    → on_get ≡ false
    → on_post ≡ false
    → (if on_get then n else if on_post then m else unexpected_method) ≡ made f
    → ⊥
no_form on_get on_post n m f e p h = ground arith

passed :
    (c : Bool) (e : ParamError) (t s : Params)
    → (if c then err e else ok t) ≡ ok s
    → (c ≡ false) × (s ≡ t)
passed c e t s h = ground arith

passes :
    (c : Bool) (e : ParamError) (t : Params)
    → c ≡ false
    → (s : Params) × ((if c then err e else ok t) ≡ ok s)
passes c e t h = (t, rw h refl)

grants :
    (c : Bool) (e : ParamError) (t : Params)
    → c ≡ true
    → (s : Params) × ((if c then ok t else err e) ≡ ok s)
grants c e t h = (t, rw h refl)

granted : (c : Bool) (e : ParamError) (t s : Params) → (if c then ok t else err e) ≡ ok s → c ≡ true
granted c e t s h = ground arith

some_of_note :
    (o : Option (Dict String)) (p : Dict String → Params) (s : Params)
    → (elim o [ none ↦ err bad_note | some n ↦ ok (p n) ]) ≡ ok s
    → (n : Dict String) × (o ≡ some n)
some_of_note none p s h = cc
some_of_note (some n) p s h = (n, refl)

read_note :
    (c : Bool) (o : Option String) (read : String → Option (Dict String)) (q : Params)
    (p : Dict String → Params) (s : Params)
    → (if c then ok q else elim o [
      | none ↦ err decrypt_panics
      | some text ↦ elim (read text) [ none ↦ err bad_note | some n ↦ ok (p n) ]
    ])
      ≡ ok s
    → (c ≡ true) ⊎ ((text : String) × (n : Dict String) × (o ≡ some text) × (read text ≡ some n))
read_note true o read q p s h = inl refl
read_note false none read q p s h = cc
read_note false (some text) read q p s h =
    let (n, e) = some_of_note (read text) p s h in inr (text, n, refl, e)

read_pkg :
    (c aes : Bool) (o : Option String) (spn : String) (q : Params) (p : String → Params)
    (s : Params)
    → (if c then ok q else elim (if aes then o else some spn) [
      | none ↦ err decrypt_panics
      | some text ↦ ok (p text)
    ])
      ≡ ok s
    → (c ≡ true) ⊎ ((aes ≡ false) ⊎ ((text : String) × (o ≡ some text)))
read_pkg true aes o spn q p s h = inl refl
read_pkg false false o spn q p s h = inr (inl refl)
read_pkg false true none spn q p s h = cc
read_pkg false true (some text) spn q p s h = inr (inr (text, refl))

pkg_read :
    (c aes : Bool) (o : Option String) (spn : String) (q : Params) (p : String → Params)
    → (c ≡ true) ⊎ ((aes ≡ false) ⊎ ((text : String) × (o ≡ some text)))
    → (s : Params) × ((if c then ok q else elim (if aes then o else some spn) [
      | none ↦ err decrypt_panics
      | some text ↦ ok (p text)
    ])
        ≡ ok s)
pkg_read true aes o spn q p h = (q, refl)
pkg_read false false o spn q p h = (p spn, refl)
pkg_read false true (some text) spn q p h = (p text, refl)
pkg_read false true none spn q p h = absurd (ground (arith, h))

or_text_filled :
    (a b : String) → (or_text a b == "") ≡ false → ((a ≢ "") ⊎ (b ≢ "")) × (or_text a b ≢ "")
unfolding or_text
or_text_filled a b h = ground (arith, eq_iff a "", eq_iff b "")

filled_or_text : (a b : String) → (a ≢ "") ⊎ (b ≢ "") → (or_text a b == "") ≡ false
unfolding or_text
filled_or_text a b h = ground (arith, eq_iff a "", eq_iff b "")

module _ (go : GoText) (r : HttpRequest) (rand8 : String) where
  pub new_context-Chosen :
      (ks : List Handler) (form : Dict String)
      → Chosen r form
      → new_context go r rand8 ks ≡ of_form go r rand8 ks form
  unfolding new_context
  new_context-Chosen ks form (inl (m, e)) = rw (m, e) refl
  new_context-Chosen ks form (inr (m, e)) = rw (m, e) refl

  form_of-new_context :
      (ks : List Handler) (f : Fresh)
      → new_context go r rand8 ks ≡ made f
      → (form : Dict String) × Chosen r form
  unfolding new_context
  form_of-new_context ks f h = elim (Bool-cases (r.method == "GET")) [
    | inl e ↦ (r.form, inl ((eq_iff r.method "GET").0 e, refl))
    | inr e ↦ elim (Bool-cases (r.method == "POST")) [
      | inl p ↦ (r.post_form, inr ((eq_iff r.method "POST").0 p, refl))
      | inr p ↦ absurd (no_form (r.method == "GET") (r.method == "POST") _ _ f e p h)
    ]
  ]

  pub whole_of-of_form :
      (ks : List Handler) (form : Dict String) (f : Fresh)
      → Covers ks
      → of_form go r rand8 ks form ≡ made f
      → Clean go r form rand8 × (f ≡ finish go form (whole go r form rand8))
  unfolding of_form
  whole_of-of_form ks form f h e =
      let m = made_of (walk go r form rand8 ks unset) (finish go form) f e in
      let w = walk-ok go r form rand8 ks m.0 h m.1 in (w.0, m.2 ∙ ap (finish go form) w.1)

  of_form-Clean :
      (ks : List Handler) (form : Dict String)
      → Covers ks
      → Clean go r form rand8
      → of_form go r rand8 ks form ≡ made (finish go form (whole go r form rand8))
  unfolding of_form
  of_form-Clean ks form h c =
      ap (λ p. elim p [ err e ↦ bad_param e | ok s ↦ made (finish go form s) ])
        (walk-Clean go r form rand8 ks h c)

  -- The context that NewContext makes if the walk over ctxInitHelper takes one order, it makes in any
  -- other order too, with the same fields. Both orders name every handler, and the draw is the same.
  pub new_context-any_order :
      (ks js : List Handler) (f : Fresh)
      → Covers ks
      → Covers js
      → new_context go r rand8 ks ≡ made f
      → new_context go r rand8 js ≡ made f
  new_context-any_order ks js f hk hj e =
      let c = form_of-new_context ks f e in
      let w = whole_of-of_form ks c.0 f hk (sym (new_context-Chosen ks c.0 c.1) ∙ e) in
      new_context-Chosen js c.0 c.1 ∙ of_form-Clean js c.0 hj w.0 ∙ ap made (sym w.1)

-- The note, if there is one, can be decrypted without a panic and read.
abbrev pub Note : GoText → Dict String → Type 0
Note go form =
    (get form "note" ≡ "")
    ⊎ ((text : String) × (note : Dict String) × (go.aes_decrypt (get form "note") ≡ some text)
        × (go.unmarshal text ≡ some note))

-- The installed packages, if there are any and they are encrypted, can be decrypted without a panic.
abbrev pub Packages : GoText → Dict String → Type 0
Packages go form =
    (get form "spn" ≡ "")
    ⊎ ((get form "api_version" ≡ "v1")
        ⊎ ((text : String) × (go.aes_decrypt (get form "spn") ≡ some text)))

-- The form names a slot or a token, the device is no Galaxy J7, the user hash is a number, and the
-- note and the installed packages can be read.
abbrev pub Acceptable : GoText → Dict String → Type 0
Acceptable go form =
    ((get form "slot_id" ≢ "") ⊎ (get form "token" ≢ ""))
    × (is_galaxy_j7 go form ≡ false)
    × ((go.atoi (hash_text go form)).1 ≡ true)
    × Note go form
    × Packages go form

module _ (go : GoText) (r : HttpRequest) (form : Dict String) (rand8 : String) where
  pub slot_of :
      (s : Params)
      → alone go r form rand8 on_slot_id ≡ ok s
      → ((get form "slot_id" ≢ "") ⊎ (get form "token" ≢ "")) × (s.slot_id ≢ "")
  unfolding handle
  slot_of s e =
      let id = or_text (get form "slot_id") (get form "token") in
      let p = passed (id == "") slot_id_empty _ s e in
      let filled = or_text_filled (get form "slot_id") (get form "token") p.0 in
      (filled.0, subst (λ (t : Params). t.slot_id ≢ "") (sym p.1) filled.1)

  Note-of : (s : Params) → alone go r form rand8 on_note ≡ ok s → Note go form
  unfolding handle
  Note-of s e =
      elim (read_note (get form "note" == "") (go.aes_decrypt (get form "note")) go.unmarshal unset
        (λ note. record unset { note = note }) s e) [
          | inl p ↦ inl ((eq_iff (get form "note") "").0 p)
          | inr q ↦ inr q
        ]

  Packages-of : (s : Params) → alone go r form rand8 on_installed_pkg ≡ ok s → Packages go form
  unfolding handle
  Packages-of s e =
      elim (read_pkg (get form "spn" == "") (not (get form "api_version" == "v1"))
        (go.aes_decrypt (get form "spn")) (get form "spn") _ _ s e) [
          | inl p ↦ inl ((eq_iff (get form "spn") "").0 p)
          | inr (inl p) ↦ inr (inl (ground (arith, p, eq_iff (get form "api_version") "v1")))
          | inr (inr q) ↦ inr (inr q)
        ]

  reads-Packages : Packages go form → (s : Params) × (alone go r form rand8 on_installed_pkg ≡ ok s)
  unfolding handle
  reads-Packages h =
      pkg_read (get form "spn" == "") (not (get form "api_version" == "v1"))
        (go.aes_decrypt (get form "spn")) (get form "spn") _ _
        (elim h [
          | inl e ↦ inl ((eq_iff (get form "spn") "").1 e)
          | inr (inl e) ↦ inr (inl (ground (arith, e, eq_iff (get form "api_version") "v1")))
          | inr (inr q) ↦ inr (inr q)
        ])

  Clean-Acceptable : Clean go r form rand8 → Acceptable go form
  unfolding handle
  Clean-Acceptable c = (
    (slot_of (c on_slot_id).0 (c on_slot_id).1).0,
    (passed (is_galaxy_j7 go form) no_galaxy_j7 unset (c on_dml).0 (c on_dml).1).0,
    granted (go.atoi (hash_text go form)).1 bad_user_hash _ (c on_user_id).0 (c on_user_id).1,
    Note-of (c on_note).0 (c on_note).1,
    Packages-of (c on_installed_pkg).0 (c on_installed_pkg).1,
  )

  reads-Note : Note go form → (s : Params) × (alone go r form rand8 on_note ≡ ok s)
  unfolding handle
  reads-Note (inl e) = (unset, rw ((eq_iff (get form "note") "").1 e) refl)
  reads-Note (inr (text, note, e, f)) = elim (Bool-cases (get form "note" == "")) [
    | inl p ↦ (unset, rw p refl)
    | inr p ↦ (record unset { note = note }, rw (p, e, f) refl)
  ]

  clean_of-Acceptable : Acceptable go form → Clean go r form rand8
  unfolding handle
  clean_of-Acceptable a on_req_id = (_, refl)
  clean_of-Acceptable a on_auto_tks = (_, refl)
  clean_of-Acceptable a on_adnum = (_, refl)
  clean_of-Acceptable a on_isdebug = (_, refl)
  clean_of-Acceptable a on_os = (_, refl)
  clean_of-Acceptable a on_country = (_, refl)
  clean_of-Acceptable a on_use_gzip = (_, refl)
  clean_of-Acceptable a on_slot_id =
      passes (or_text (get form "slot_id") (get form "token") == "") slot_id_empty _
        (filled_or_text (get form "slot_id") (get form "token") a.0)
  clean_of-Acceptable a on_f = (_, refl)
  clean_of-Acceptable a on_dml = (unset, rw a.1 refl)
  clean_of-Acceptable a on_lang = (_, refl)
  clean_of-Acceptable a on_img_rule = (_, refl)
  clean_of-Acceptable a on_user_id = grants (go.atoi (hash_text go form)).1 bad_user_hash _ a.2
  clean_of-Acceptable a on_possiable_args = (_, refl)
  clean_of-Acceptable a on_imgw = (_, refl)
  clean_of-Acceptable a on_screen_w = (_, refl)
  clean_of-Acceptable a on_integral_wall = (_, refl)
  clean_of-Acceptable a on_installed_pkg = reads-Packages a.4
  clean_of-Acceptable a on_note = reads-Note a.3
  clean_of-Acceptable a on_ct_bloom_filter = (_, refl)
  clean_of-Acceptable a on_ngp_bloom_filter = (_, refl)
  clean_of-Acceptable a on_keywords = (_, refl)
  clean_of-Acceptable a on_pn = (_, refl)
  clean_of-Acceptable a on_ua = (_, refl)
  clean_of-Acceptable a on_carrier = (_, refl)
  clean_of-Acceptable a on_cids = (_, refl)
  clean_of-Acceptable a on_nt = (_, refl)
  clean_of-Acceptable a on_subs = (_, refl)
  clean_of-Acceptable a on_dt = (_, refl)
  clean_of-Acceptable a on_adw = (_, refl)
  clean_of-Acceptable a on_output = (_, refl)
  clean_of-Acceptable a on_req_origin = (_, refl)

  -- For a GET or POST request, NewContext makes a context exactly if the form that the method chooses
  -- is acceptable, a panic of aes.Decrypt making none.
  pub new_context-Acceptable :
      (ks : List Handler)
      → Chosen r form
      → Covers ks
      → ((f : Fresh) × (new_context go r rand8 ks ≡ made f)) ↔ Acceptable go form
  new_context-Acceptable ks chosen h = (
    λ (f, e). Clean-Acceptable (
        (whole_of-of_form go r rand8 ks form f h
          (sym (new_context-Chosen go r rand8 ks form chosen) ∙ e)).0),
    λ a. (
      finish go form (whole go r form rand8),
      new_context-Chosen go r rand8 ks form chosen
          ∙ of_form-Clean go r rand8 ks form h (clean_of-Acceptable a),
    ),
  )
