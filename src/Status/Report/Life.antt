-- ===== src/Status/Report/Life.antt =====
-- recordRequest of status/retrieval_report.go before and after preReport.
use real_api_server.Prelude.{
  ℕ, String, ◌≡◌, refl, false, Option, none, some, List, [], ◌∷◌, arith, ◌==◌, string_eq,
  Bool-cases, inl, inr,
}
use real_api_server.Prelude.Dict.{Dict, lookup, insert}
use real_api_server.Prelude.Run.{ok, panic, >>=-eq-ok}
use real_api_server.Status.Report.{
  Elem, Request, RetrievalReport, put, offered, counted, count_in, count_offers, count_platform,
  count_slot, record_request, pre_report, top_countries, set_top,
}

-- Every map that a request is counted in is there.
pub record IsOpen (t : RetrievalReport) : Type 0 where
  pub ios_country : (m : Dict Elem) × (t.ios_country ≡ some m)
  pub android_country : (m : Dict Elem) × (t.android_country ≡ some m)
  pub ios_ad_type : (m : Dict Elem) × (t.ios_ad_type ≡ some m)
  pub android_ad_type : (m : Dict Elem) × (t.android_ad_type ≡ some m)
  pub slots : (m : Dict Elem) × (t.slots ≡ some m)
  pub offers : (m : Dict Elem) × (t.offers ≡ some m)

count_offers_open :
    (oids : List String) (m : Dict Elem)
    → (m' : Dict Elem) × (count_offers oids (some m) ≡ ok (some m'))
unfolding count_offers
count_offers_open [] m = (m, refl)
count_offers_open (oid ∷ rest) m = count_offers_open rest (insert oid (offered (lookup oid m)) m)

module _ (percent : ℕ → ℕ → String) where
  count_in_open :
      (k : String) (r : Request) (o : Option (Dict Elem)) (m : Dict Elem)
      → o ≡ some m
      → (m' : Dict Elem) × (count_in percent k r o ≡ ok (some m'))
  unfolding count_in
  count_in_open k r o m e = (insert k (counted percent r (lookup k m)) m, rw e)

  count_platform-IsOpen :
      (r : Request) (t : RetrievalReport)
      → IsOpen t
      → (t' : RetrievalReport) × (count_platform percent r t ≡ ok t') × IsOpen t'
  unfolding count_platform
  count_platform-IsOpen r t v =
      let (a, p) = count_in_open r.adtype r t.ios_ad_type v.ios_ad_type.0 v.ios_ad_type.1 in
      let (c, q) = count_in_open r.country r t.ios_country v.ios_country.0 v.ios_country.1 in
      let (b, p') =
        count_in_open r.adtype r t.android_ad_type v.android_ad_type.0 v.android_ad_type.1 in
      let (d, q') =
        count_in_open r.country r t.android_country v.android_country.0 v.android_country.1 in
      elim (Bool-cases (r.platform == "iOS")) [
        | inl ios ↦ (
          record t { ios_ad_type = some a; ios_country = some c },
          rw (ios, p, q),
          record {
            ios_country = (c, refl);
            android_country = v.android_country;
            ios_ad_type = (a, refl);
            android_ad_type = v.android_ad_type;
            slots = v.slots;
            offers = v.offers;
          },
        )
        | inr other ↦ (
          record t { android_ad_type = some b; android_country = some d },
          rw (other, p', q'),
          record {
            ios_country = v.ios_country;
            android_country = (d, refl);
            ios_ad_type = v.ios_ad_type;
            android_ad_type = (b, refl);
            slots = v.slots;
            offers = v.offers;
          },
        )
      ]

  count_slot-IsOpen :
      (r : Request) (t : RetrievalReport)
      → IsOpen t
      → (t' : RetrievalReport) × (count_slot percent r t ≡ ok t') × IsOpen t'
  unfolding count_slot
  count_slot-IsOpen r t v =
      let (a, p) = count_in_open r.slotid r t.slots v.slots.0 v.slots.1 in
      let (o, q) = count_offers_open r.offers v.offers.0 in
      (
        record t { slots = some a; offers = some o },
        rw (p, v.offers.1, q),
        record {
          ios_country = v.ios_country;
          android_country = v.android_country;
          ios_ad_type = v.ios_ad_type;
          android_ad_type = v.android_ad_type;
          slots = (a, refl);
          offers = (o, refl);
        },
      )

  -- Recording a request in an open report does not panic, and leaves the report open.
  pub record_request-IsOpen :
      (r : Request) (t : RetrievalReport)
      → IsOpen t
      → (t' : RetrievalReport) × (record_request percent r t ≡ ok t') × IsOpen t'
  unfolding record_request
  record_request-IsOpen r t v =
      let (u, p, w) = count_platform-IsOpen r t v in
      let (u', p', w') = count_slot-IsOpen r u w in
      elim (Bool-cases (r.adtype == "8")) [
        | inl promote ↦ (u, rw (p, promote), w)
        | inr other ↦ (u', rw (p, other) p', w')
      ]

  count_in_nil : (k : String) (r : Request) → count_in percent k r none ≡ panic
  unfolding count_in put
  count_in_nil k r = refl

  count_platform_nil :
      (r : Request) (t : RetrievalReport)
      → t.ios_country ≡ none
      → t.android_country ≡ none
      → count_platform percent r t ≡ panic
  unfolding count_platform
  count_platform_nil r t p q = ground (arith, count_in_nil r.country r)

  pre_report_closes :
      (t t' : RetrievalReport)
      → t.top_ok ≡ false
      → pre_report t ≡ ok t'
      → (t'.ios_country ≡ none) × (t'.android_country ≡ none)
  unfolding pre_report
  pre_report_closes t t' open_ h =
      let (a, p, q) = >>=-eq-ok (top_countries t.ios_country) _ (rw open_ at h) in
      let (b, p', q') = >>=-eq-ok (top_countries t.android_country) _ q in
      let (c, p'', q'') = >>=-eq-ok (set_top [] t.slots 20) _ q' in
      let (d, p3, q3) = >>=-eq-ok (set_top [] t.offers 30) _ q'' in (ground arith, ground arith)

  -- Once a report has been prepared for output, recording any request in it panics, by the write
  -- to the map of countries, which is nil by then.
  pub record_request-pre_report :
      (r : Request) (t t' : RetrievalReport)
      → t.top_ok ≡ false
      → pre_report t ≡ ok t'
      → record_request percent r t' ≡ panic
  unfolding record_request
  record_request-pre_report r t t' open_ h =
      let (p, q) = pre_report_closes t t' open_ h in rw (count_platform_nil r t' p q)
