-- ===== src/RawAd/Click.antt =====
-- raw_ad/click_url.go: which channels have a generator of click urls, and whether the generator
-- panics. The text of the url is left out: of all the generators only genMobiMaxClkUrl, for "mbx",
-- may panic, since it reads the second part of the track link.
use real_api_server.Prelude.{
  String, Bool, Option, none, some, List, [], ◌∷◌, ◌==◌, string_eq, if◌then◌else◌, ◌≡◌, ◌≢◌, ◌⊎◌,
  ◌<◌, length, inl, inr, refl, true, false, arith, eq_iff,
}
use real_api_server.Prelude.Run.{Run, ok, panic, Returns}
use real_api_server.HttpContext.{has_text}
use real_api_server.RawAd.{RawAd}

-- the keys of channelClkUrlGenerator
unfoldable pub channels : List String
channels =
    "ym" ∷ "rssym" ∷ "nym" ∷ "tym" ∷ "iym" ∷ "vym" ∷ "v1ym" ∷ "jpym" ∷ "jpym2" ∷ "stpym" ∷ "inym"
    ∷ "n1ym" ∷ "n2ym" ∷ "n3ym" ∷ "sym" ∷ "glp" ∷ "nglp" ∷ "gdt" ∷ "xx" ∷ "xxj" ∷ "cm" ∷ "im"
    ∷ "qczj" ∷ "wby2" ∷ "wby3" ∷ "wby4" ∷ "wby5" ∷ "wbyt" ∷ "wbyti" ∷ "wbyti2" ∷ "ismt" ∷ "vcm"
    ∷ "mn" ∷ "um" ∷ "adcm" ∷ "apl" ∷ "irs" ∷ "ppy" ∷ "apn" ∷ "apn2" ∷ "yai" ∷ "apa" ∷ "zom" ∷ "pst"
    ∷ "pst2" ∷ "pst3" ∷ "pstt" ∷ "mnd" ∷ "mnd2" ∷ "mas" ∷ "mbx" ∷ "tpa" ∷ "tpa2" ∷ "vtpa" ∷ "wby"
    ∷ "nwby" ∷ "apsnt" ∷ "apsnt2" ∷ "wdg" ∷ "wdg2" ∷ "uci" ∷ "pbntv" ∷ "pbntv2" ∷ "fkt" ∷ "wmt"
    ∷ "adst" ∷ "lb" ∷ "stp" ∷ "yoda" ∷ "yoda2" ∷ "mtm" ∷ "apc" ∷ "rltm" ∷ "aft" ∷ "mbs" ∷ "mbp"
    ∷ "adt" ∷ "smt" ∷ "mbm" ∷ "mvt" ∷ "vmvt" ∷ "mv" ∷ "wcl" ∷ "ctl" ∷ "afl" ∷ "stmb" ∷ "stmb2"
    ∷ "owy" ∷ "avz" ∷ "avzt" ∷ "smt2" ∷ "dun" ∷ "dun2" ∷ "dunt" ∷ "inmobi" ∷ "cht" ∷ "smd" ∷ "smd2"
    ∷ "mbc" ∷ "seaec" ∷ "med" ∷ "ipb" ∷ "bmb" ∷ "sgd" ∷ "ldb" ∷ "mbd" ∷ "nbd" ∷ "huicheng" ∷ []

-- genMobiMaxClkUrl, for the parts of the track link
unfoldable pub mobi_max : List String → Run (Unit {0})
mobi_max [] = panic
mobi_max (url ∷ []) = panic
mobi_max (url ∷ arg ∷ more) = ok tt

-- The call, if there is one, returns.
abbrev pub Clicks : Option (Run (Unit {0})) → Type 0
Clicks none = Unit
Clicks (some call) = Returns (λ u. Unit {0}) call

mobi_max-Returns : (l : List String) → 1 < length l → Returns (λ u. Unit {0}) (mobi_max l)
unfolding mobi_max
mobi_max-Returns [] h = absurd (omega (arith, h))
mobi_max-Returns (url ∷ []) h = absurd (omega (arith, h))
mobi_max-Returns (url ∷ arg ∷ more) h = tt

Clicks-if :
    (dsp listed mbx : Bool) (call : Run (Unit {0}))
    → (mbx ≡ true → Returns (λ u. Unit {0}) call)
    → Clicks
        (if dsp then some (ok tt) else if listed then some (if mbx then call else ok tt) else none)
Clicks-if true listed mbx call h = tt
Clicks-if false false mbx call h = tt
Clicks-if false true false call h = tt
Clicks-if false true true call h = h refl

module _ {F : Type 0} (has_prefix : String → String → Bool) (split : String → List String) where
  -- GetChannelClkUrlGenerator with a call of what it gives, `none` where it gives nothing; `split` is
  -- strings.Split at "?"
  unfoldable pub click_url : RawAd F → Option (Run (Unit {0}))
  unfolding mobi_max
  click_url raw =
      if has_prefix raw.channel "dsp"
      then some (ok tt)
      else if has_text raw.channel channels
      then some (if raw.channel == "mbx" then mobi_max (split raw.track_link) else ok tt)
      else none

  -- A track link from which a click url can be made.
  abbrev pub Linked : RawAd F → Type 0
  Linked raw = (raw.channel ≢ "mbx") ⊎ (1 < length (split raw.track_link))

  pub click_url-Clicks : (raw : RawAd F) → Linked raw → Clicks (click_url raw)
  unfolding click_url
  click_url-Clicks raw h =
      Clicks-if (has_prefix raw.channel "dsp") (has_text raw.channel channels)
        (raw.channel == "mbx") (mobi_max (split raw.track_link))
        (λ e. elim h [
          | inl other ↦ absurd (other ((eq_iff raw.channel "mbx").0 e))
          | inr two ↦ mobi_max-Returns (split raw.track_link) two
        ])
