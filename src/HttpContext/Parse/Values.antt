-- ===== src/HttpContext/Parse/Values.antt =====
-- The values that the fields of a context take once NewContext has made it.
use real_api_server.Prelude.{
  String, Bool, true, false, not, ◌&&◌, ◌||◌, List, ◌==◌, nat_eq, string_eq, if◌then◌else◌, ◌≡◌,
  ◌≢◌, ◌↔◌, ◌⊎◌, refl, arith, inl, inr, is_some, Bool-cases, sym, subst, ◌∙◌, eq_iff, none, some,
  [],
}
use real_api_server.Prelude.Int.{ℤ, pos, negsuc, ◌≤ℤ◌, leb_ℤ, eqb_ℤ}
use real_api_server.Prelude.Dict.{Dict}
use real_api_server.HttpContext.Parse.{GoText, HttpRequest, Handler, on_slot_id}
use real_api_server.HttpContext.Parse.Forms.{or_text, get}
use real_api_server.HttpContext.Parse.Handlers.{handle}
use real_api_server.HttpContext.Parse.Walk.{new_context, made, finish, Fresh}
use real_api_server.HttpContext.Parse.Orders.{given, set_by}
use real_api_server.HttpContext.Parse.Laws.{Covers, whole, Clean}
use real_api_server.HttpContext.Parse.Made.{Chosen, new_context-Chosen, whole_of-of_form, slot_of}

-- One of the devices that "dt" may name, or none.
abbrev pub Known : String → Type 0
Known device = (device ≡ "") ⊎ (device ≡ "phone") ⊎ (device ≡ "ipad") ⊎ (device ≡ "tablet")

-- The values of a context; the platform is that of "platform", never that of "os".
abbrev pub Valued : GoText → Dict String → Fresh → Type 0
Valued go form f =
    (f.params.platform ≡ get form "platform")
    × (f.params.slot_id ≢ "")
    × (pos 1 ≤ℤ f.params.ad_num)
    × (f.params.img_rule ≢ pos 0)
    × ((f.params.platform ≢ "Android") ⊎ (f.params.img_rule ≢ pos 3))
    × (f.params.lang ≢ "")
    × (f.params.notify_from ≢ "")
    × (f.params.output ≢ "")
    × (f.params.req_origin ≢ "")
    × Known f.params.device
    × ((f.params.network ≡ "") ⊎ ((go.atoi f.params.network).1 ≡ true))
    × ((f.params.is_demsg ≡ false) ⊎ (f.params.is_debug ≡ true))
    × ((is_some f.conv_pkg_set ≡ true) ↔ (f.params.platform ≡ "iOS"))

ad_num_positive : (n : ℤ) → pos 1 ≤ℤ (if leb_ℤ n (pos 0) then pos 1 else n)
ad_num_positive n = ground arith

rule_nonzero :
    (c : Bool) (rule : ℤ)
    → (if c && eqb_ℤ (if eqb_ℤ rule (pos 0) then negsuc 1 else rule) (pos 3)
        then negsuc 1
        else if eqb_ℤ rule (pos 0)
        then negsuc 1
        else rule)
      ≢ pos 0
rule_nonzero c rule = ground arith

rule_android :
    (platform : String) (rule : ℤ)
    → (platform ≢ "Android")
      ⊎ ((if platform == "Android" && eqb_ℤ rule (pos 3) then negsuc 1 else rule) ≢ pos 3)
rule_android platform rule = ground (arith, eq_iff platform "Android")

or_text_nonempty : (v w : String) → (w ≢ "") → or_text v w ≢ ""
unfolding or_text
or_text_nonempty v w h = ground (arith, eq_iff v "")

letter : (c : Bool) → ◌≢◌ {A = String} (if c then "c" else "b") ""
letter true h = cc
letter false h = cc

device-Known :
    (dt : String) → Known (if dt == "phone" || (dt == "ipad" || dt == "tablet") then dt else "")
device-Known dt = ground (arith, eq_iff dt "phone", eq_iff dt "ipad", eq_iff dt "tablet")

and_right : (b c : Bool) → (b && c) ≡ true → c ≡ true
and_right b c h = ground arith

network_number :
    (atoi : String → ℤ × Bool) (nt : String)
    → ((if not (nt == "") && (atoi nt).1 then nt else "") ≡ "")
      ⊎ ((atoi (if not (nt == "") && (atoi nt).1 then nt else "")).1 ≡ true)
network_number atoi nt = elim (Bool-cases (not (nt == "") && (atoi nt).1)) [
  | inl e ↦ rw e (inr (and_right (not (nt == "")) (atoi nt).1 e))
  | inr e ↦ rw e (inl refl)
]

demsg_debug :
    (c d : Bool) → ((if c && d then true else false) ≡ false) ⊎ ((if c then true else false) ≡ true)
demsg_debug c d = ground arith

set_on_ios :
    (platform : String) (s : List String)
    → (is_some (if platform == "iOS" then some s else none) ≡ true) ↔ (platform ≡ "iOS")
set_on_ios platform s = ground (arith, eq_iff platform "iOS")

module _ (go : GoText) (r : HttpRequest) (form : Dict String) (rand8 : String) where
  finish-Valued : Clean go r form rand8 → Valued go form (finish go form (whole go r form rand8))
  unfolding finish handle set_by
  finish-Valued c = (
    refl,
    subst (λ p. (given p).slot_id ≢ "") (sym (c on_slot_id).1)
        (slot_of go r form rand8 (c on_slot_id).0 (c on_slot_id).1).1,
    ad_num_positive (go.atoi (get form "adnum")).0,
    rule_nonzero (get form "platform" == "Android") (go.atoi (get form "img_rule")).0,
    rule_android (get form "platform") (whole go r form rand8).img_rule,
    or_text_nonempty (or_text (get form "lang") (get form "country")) "ALL" (λ e. cc),
    or_text_nonempty (get form "f") (if get form "platform" == "iOS" then "c" else "b")
        (letter (get form "platform" == "iOS")),
    or_text_nonempty (get form "output") "json" (λ e. cc),
    or_text_nonempty (get form "req_origin") "sdk" (λ e. cc),
    device-Known (get form "dt"),
    network_number go.atoi (get form "nt"),
    demsg_debug (get form "isdebug" == "2") (get form "isdemsg" == "1"),
    set_on_ios (get form "platform") [],
  )

  -- The context that NewContext makes has the platform that "platform" names, whatever "os" says, a
  -- slot, at least one ad to show, and an image rule that is not 0 and on Android not 3; the texts
  -- with a default are not empty; the device is known, the network a number or empty, messages for
  -- debugging are kept only for debugging, and the set of packages is there exactly on iOS.
  pub new_context-Valued :
      (ks : List Handler) (f : Fresh)
      → Chosen r form
      → Covers ks
      → new_context go r rand8 ks ≡ made f
      → Valued go form f
  new_context-Valued ks f chosen h e =
      let w =
        whole_of-of_form go r rand8 ks form f h
          (sym (new_context-Chosen go r rand8 ks form chosen) ∙ e) in
      subst (Valued go form) (sym w.1) (finish-Valued w.0)
