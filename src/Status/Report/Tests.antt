-- ===== src/Status/Report/Tests.antt =====
-- Concrete requests and reports.
use real_api_server.Prelude.{ℕ, ◌≡◌, refl, String, true, Option, none, some, [], ◌∷◌}
use real_api_server.Prelude.Dict.{Dict, lookup, insert}
use real_api_server.Prelude.Run.{ok, panic}
use real_api_server.Status.Report.{
  Elem, Request, RetrievalReport, new_report, record_request, pre_report, set_top, entries,
}
use real_api_server.Status.Report.Counts.{Recorded, record_request-Recorded}
use real_api_server.Status.Report.Life.{IsOpen, record_request-pre_report}
use real_api_server.Status.Report.Top.{Topped, items, store, set_top-Topped}

abbrev percent : ℕ → ℕ → String
percent f r = "50.00%"

abbrev from_fr : Request
from_fr = record {
  num_req = 3;
  num_filled = 2;
  country = "FR";
  platform = "iOS";
  adtype = "1";
  slotid = "77";
  offers = "a" ∷ "b" ∷ [];
}

abbrev fr_elem : Elem
fr_elem = record { req = 3; filled = 2; fill_rate = "50.00%" }

abbrev one_offer : Elem
one_offer = record { req = 1; filled = 1; fill_rate = "" }

abbrev after_fr : RetrievalReport
after_fr = record new_report {
  ios_ad_type = some (("1", fr_elem) ∷ []);
  ios_country = some (("FR", fr_elem) ∷ []);
  slots = some (("77", fr_elem) ∷ []);
  offers = some (("a", one_offer) ∷ ("b", one_offer) ∷ []);
}

after_fr_eq : record_request percent from_fr new_report ≡ ok after_fr
unfolding record_request lookup insert
after_fr_eq = refl

new_report-IsOpen : IsOpen new_report
new_report-IsOpen = record {
  ios_country = ([], refl);
  android_country = ([], refl);
  ios_ad_type = ([], refl);
  android_ad_type = ([], refl);
  slots = ([], refl);
  offers = ([], refl);
}

record_request-Recorded_example : Recorded percent from_fr new_report after_fr
record_request-Recorded_example =
    record_request-Recorded percent from_fr new_report after_fr after_fr_eq

abbrev closed : RetrievalReport
closed = record new_report {
  ios_country = none;
  android_country = none;
  platform_top20_country =
      ("iOS", ("CN", none) ∷ ("TW", none) ∷ ("HK", none) ∷ [])
      ∷ ("Android", ("CN", none) ∷ ("TW", none) ∷ ("HK", none) ∷ [])
      ∷ [];
  platform_adtype = ("iOS", some []) ∷ ("Android", some []) ∷ [];
  slots = none;
  offers = none;
  top_ok = true;
}

closed_eq : pre_report new_report ≡ ok closed
unfolding pre_report lookup insert
closed_eq = refl

record_request-pre_report_example : record_request percent from_fr closed ≡ panic
record_request-pre_report_example =
    record_request-pre_report percent from_fr new_report closed refl closed_eq

abbrev two_slots : Option (Dict Elem)
two_slots = some (("a", one_offer) ∷ ("77", fr_elem) ∷ [])

set_top-Topped_example :
    (taken : _) × (rest : _) × (set_top [] two_slots 1 ≡ ok (store taken []))
    × Topped (items (entries two_slots)) 1 taken rest
set_top-Topped_example = set_top-Topped [] two_slots 1
