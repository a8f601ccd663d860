-- ===== src/HttpContext/Parse/Forms.antt =====
-- What the handlers of ctxInitHelper in http_context/http_context.go read out of the form, with the
-- helpers of util/util.go and util/user_hash.go that they call.
use Prim.Native.String.{◌++◌ as concat}
use real_api_server.Prelude.{
  String, Bool, ◌||◌, Option, none, some, List, [], ◌∷◌, ◌==◌, nat_eq, string_eq, if◌then◌else◌,
}
use real_api_server.Prelude.Int.{ℤ}
use real_api_server.Prelude.Dict.{Dict, lookup, insert}
use real_api_server.HttpContext.Parse.{GoText}

-- possiableArgs
abbrev pub possiable_keys : List String
possiable_keys =
    "msv" ∷ "country" ∷ "pn" ∷ "user_id" ∷ "ran" ∷ "platform" ∷ "gaid" ∷ "tz" ∷ "ck" ∷ "dt" ∷ "nt"
    ∷ "aid" ∷ "idfa" ∷ "imei" ∷ "ip" ∷ "icc" ∷ "gp" ∷ "dmf" ∷ "dml" ∷ "dpd" ∷ "so" ∷ "ds" ∷ "mcc"
    ∷ "mnc" ∷ "cn" ∷ "la" ∷ "lo" ∷ "ua" ∷ "srnc" ∷ "carrier" ∷ "f" ∷ "n" ∷ "ispre" ∷ "lang" ∷ []

-- the keys of btnTextSlot1 and btnTextSlot2
pub btn_text_slot1 : String → Bool
btn_text_slot1 slot = slot == "87065741" || (slot == "23367373" || slot == "15101879")

pub btn_text_slot2 : String → Bool
btn_text_slot2 slot = slot == "78519999" || slot == "68572006"

-- strings.Join
pub join : String → List String → String
join sep [] = ""
join sep (s ∷ []) = s
join sep (s ∷ t ∷ rest) = concat s (concat sep (join sep (t ∷ rest)))

-- StrJoinUnderline
unfoldable pub str_join_underline : List String → String
unfolding join
str_join_underline ss = join "_" ss

-- v, or what stands in its place where it is empty
unfoldable pub or_text : String → String → String
or_text v w = if v == "" then w else v

-- form.Get
unfoldable pub get : Dict String → String → String
get form key = elim (lookup key form) [ none ↦ "" | some v ↦ v ]

-- the value of a call, or a text in its place
unfoldable pub text_or : Option String → String → String
text_or none w = w
text_or (some v) w = v

-- the value of a call in lower case, or a text in its place
unfoldable pub lower_or : (String → String) → Option String → String → String
lower_or lower none w = w
lower_or lower (some v) w = lower v

module _ (go : GoText) where
  pub normalize_region : String → String
  normalize_region region = go.to_lower (go.replace region " " "")

  pub get_user_hash : String → String
  get_user_hash uid = if uid == "" then "0" else go.md5_hash (concat "bus-" uid)

  -- the loop over the pairs of cids
  pub cid_pairs : List String → Dict ℤ → Dict ℤ
  cid_pairs [] m = m
  cid_pairs (c ∷ []) m = m
  cid_pairs (c ∷ times ∷ rest) m = cid_pairs rest (insert c (go.atoi times).0 m)

  pub key_words_of : List String → List String
  key_words_of [] = []
  key_words_of (w ∷ ws) = go.strip_key_word w ∷ key_words_of ws

-- The form that NewContext chose for the request.
module _ (go : GoText) (form : Dict String) where
  pub icc_of : String
  unfolding get
  icc_of =
      let icc : String =
        if go.has_prefix (go.to_lower (get form "lang")) "zh"
        then "CN"
        else go.to_upper (get form "icc") in
      if go.byte_len icc == 2 then icc else get form "country"

  pub button_text_of : String
  unfolding icc_of get btn_text_slot1 btn_text_slot2
  button_text_of =
      if icc_of == "CN"
      then if btn_text_slot1 (get form "slot_id")
        then "立即下载"
        else if btn_text_slot2 (get form "slot_id")
        then "下载"
        else "立刻查看"
      else if icc_of == "TW"
      then "點擊查看"
      else if icc_of == "RU"
      then "подробности"
      else if icc_of == "JP"
      then "ビュー"
      else if icc_of == "ID"
      then "Free Download"
      else "Install Now"

  -- the loop of "possiable_args"
  pub args_of : List String → List String
  unfolding get
  args_of [] = []
  args_of (k ∷ ks) =
      let rest = args_of ks in
      let v : String = get form k in
      if v == ""
      then rest
      else concat k (concat "=" (go.query_escape (if k == "pn" then go.replace v "_" "-" else v)))
        ∷ rest

  -- the text that url.QueryUnescape gives, empty on an error
  pub unescaped : String → String
  unfolding get text_or
  unescaped key = text_or (go.query_unescape (get form key)) ""

  unfoldable pub is_galaxy_j7 : Bool
  unfolding unescaped
  is_galaxy_j7 =
      go.contains (unescaped "dml") "Galaxy J7" || go.contains (unescaped "dpd") "Galaxy J7"

  -- the "user_hash" that is read
  unfoldable pub hash_text : String
  unfolding get or_text get_user_hash
  hash_text = or_text (get form "user_hash") (get_user_hash go (get form "user_id"))
