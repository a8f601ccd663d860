-- ===== src/Status/Report.antt =====
-- status/retrieval_report.go, status/request.go: what one minute of requests adds up to, and the
-- top lists of a report. `percent` is the text of `fmt.Sprintf("%.2f%%", 100*float32(f)/float32(r))`.
-- A map that the code sets to nil is `none`: reading it finds nothing, writing to it panics.
pub mod Counts
pub mod Life
pub mod Top
mod Tests
use real_api_server.Prelude.{
  ℕ, zero, suc, ◌+◌, ◌≤◌, String, ◌≡◌, refl, Bool, true, false, Option, none, some, List, [], ◌∷◌,
  arith, ltb, length, ◌==◌, nat_eq, string_eq, if◌then◌else◌,
}
use real_api_server.Prelude.Dict.{Dict, lookup, insert}
use real_api_server.Prelude.Run.{Run, ok, panic, ◌>>=◌}
use real_api_server.GoHeap

pub record Elem : Type 0 where
  pub req : ℕ
  pub filled : ℕ
  pub fill_rate : String

pub record Request : Type 0 where
  pub num_req : ℕ
  pub num_filled : ℕ
  pub country : String
  pub platform : String
  pub adtype : String
  pub slotid : String
  pub offers : List String

pub record RetrievalReport : Type 0 where
  pub ios_country : Option (Dict Elem)
  pub android_country : Option (Dict Elem)
  pub ios_ad_type : Option (Dict Elem)
  pub android_ad_type : Option (Dict Elem)
  pub slots : Option (Dict Elem)
  pub offers : Option (Dict Elem)
  pub platform_adtype : Dict (Option (Dict Elem))
  pub platform_top20_country : Dict (Dict (Option Elem))
  pub top20_slot : Dict (Option Elem)
  pub top30_offer : Dict (Option Elem)
  pub top_ok : Bool

abbrev pub new_report : RetrievalReport
new_report = record {
  ios_country = some [];
  android_country = some [];
  ios_ad_type = some [];
  android_ad_type = some [];
  slots = some [];
  offers = some [];
  platform_adtype = [];
  platform_top20_country = [];
  top20_slot = [];
  top30_offer = [];
  top_ok = false;
}

-- m[key] of a map that may be nil
abbrev pub find : String → Option (Dict Elem) → Option Elem
find k none = none
find k (some m) = lookup k m

-- m[key] = e
pub put : String → Elem → Option (Dict Elem) → Run (Option (Dict Elem))
put k e none = panic
put k e (some m) = ok (some (insert k e m))

-- the `if` over one offer id
pub offered : Option Elem → Elem
offered none = record { req = 1; filled = 1; fill_rate = "" }
offered (some e) = record e { req = e.req + 1; filled = e.filled + 1 }

-- the `for` over the offers
pub count_offers : List String → Option (Dict Elem) → Run (Option (Dict Elem))
unfolding put offered
count_offers [] m = ok m
count_offers (oid ∷ rest) m = put oid (offered (find oid m)) m >>= count_offers rest

module _ (percent : ℕ → ℕ → String) where
  pub rate : ℕ → ℕ → String
  rate req filled = if req == 0 then "0%" else percent filled req

  pub new_elem : Request → Elem
  unfolding rate
  new_elem r = record {
    req = r.num_req;
    filled = r.num_filled;
    fill_rate = rate r.num_req r.num_filled;
  }

  pub add_req : Elem → Request → Elem
  unfolding rate
  add_req e r = record {
    req = e.req + r.num_req;
    filled = e.filled + r.num_filled;
    fill_rate = rate (e.req + r.num_req) (e.filled + r.num_filled);
  }

  -- if e := m[key]; e != nil { e.AddReq(r) } else { m[key] = NewElem(r) }
  pub counted : Request → Option Elem → Elem
  unfolding new_elem add_req
  counted r none = new_elem r
  counted r (some e) = add_req e r

  pub count_in : String → Request → Option (Dict Elem) → Run (Option (Dict Elem))
  unfolding put counted
  count_in key r m = put key (counted r (find key m)) m

  pub count_platform : Request → RetrievalReport → Run RetrievalReport
  unfolding count_in
  count_platform r report =
      if r.platform == "iOS"
      then (do
        t ← count_in r.adtype r report.ios_ad_type
        c ← count_in r.country r report.ios_country
        ok (record report { ios_ad_type = t; ios_country = c }))
      else do
        t ← count_in r.adtype r report.android_ad_type
        c ← count_in r.country r report.android_country
        ok (record report { android_ad_type = t; android_country = c })

  pub count_slot : Request → RetrievalReport → Run RetrievalReport
  unfolding count_in count_offers
  count_slot r report = do
    s ← count_in r.slotid r report.slots
    o ← count_offers r.offers report.offers
    ok (record report { slots = s; offers = o })

  -- promotion requests ("8") are counted by platform only
  pub record_request : Request → RetrievalReport → Run RetrievalReport
  unfolding count_platform count_slot
  record_request r report = count_platform r report >>= λ counted.
      if r.adtype == "8" then ok counted else count_slot r counted

pub record Item : Type 0 where
  pub key : String
  pub elem : Elem

-- priorityQueue.Less: the most requests first
abbrev pub more : Item → Item → Bool
more a b = ltb b.elem.req a.elem.req

pub enqueue : Dict Elem → List Item → List Item
unfolding GoHeap.push
enqueue [] h = h
enqueue ((k, e) ∷ src) h = enqueue src (GoHeap.push more h (record { key = k; elem = e }))

-- the second loop of setTop; `GoHeap.pop` gives `none` where `heap.Pop` would panic
pub drain : ℕ → List Item → Dict (Option Elem) → Run (Dict (Option Elem))
unfolding GoHeap.pop
drain zero h dst = ok dst
drain (suc top) [] dst = ok dst
drain (suc top) (x ∷ h) dst = elim (GoHeap.pop more (x ∷ h)) [
  | none ↦ panic
  | some (item, rest) ↦ drain top rest (insert item.key (some item.elem) dst)
]

-- the entries that `range` visits, none of a nil map
abbrev pub entries : Option (Dict Elem) → Dict Elem
entries none = []
entries (some m) = m

pub set_top : Dict (Option Elem) → Option (Dict Elem) → ℕ → Run (Dict (Option Elem))
unfolding enqueue drain
set_top dst src top = drain top (enqueue (entries src) []) dst

-- the top 20 countries of one platform, and always CN, TW and HK
pub top_countries : Option (Dict Elem) → Run (Dict (Option Elem))
unfolding set_top
top_countries m = do
  top ← set_top [] m 20
  ok (insert "HK" (find "HK" m) (insert "TW" (find "TW" m) (insert "CN" (find "CN" m) top)))

pub pre_report : RetrievalReport → Run RetrievalReport
unfolding top_countries set_top
pre_report report = if report.top_ok then ok report else do
  ios ← top_countries report.ios_country
  android ← top_countries report.android_country
  slots ← set_top [] report.slots 20
  offers ← set_top [] report.offers 30
  ok (record report {
    ios_country = none;
    android_country = none;
    platform_top20_country = ("iOS", ios) ∷ ("Android", android) ∷ [];
    platform_adtype = ("iOS", report.ios_ad_type) ∷ ("Android", report.android_ad_type) ∷ [];
    top20_slot = slots;
    slots = none;
    top30_offer = offers;
    offers = none;
    top_ok = true;
  })
