-- ===== src/Status/Minutes.antt =====
-- status/status.go, status/report.go, status/phase_report.go, status/request.go: the reports of the sixty
-- minutes of an hour. A report that is nil is `none`: using it panics. The page that GetStatus serves
-- is left out. Each function is a part of the code that runs
-- under one lock, or between two; RecordReq is visit and then, after its lock is free, record_info.
use real_api_server.Prelude.{
  ℕ, ◌+◌, ◌/◌, ◌%◌, String, Bool, true, false, Option, none, some, List, [], ◌∷◌, length, ◌==◌,
  nat_eq, string_eq, if◌then◌else◌,
}
use real_api_server.Prelude.Int.{ℤ, pos, negsuc, ltb_ℤ}
use real_api_server.Prelude.Dict.{Dict, lookup, insert}
use real_api_server.Prelude.Run.{Run, ok, panic, ◌>>=◌}
use real_api_server.HttpContext.{Context}
use real_api_server.Status.Report.{RetrievalReport, Request, new_report, record_request, pre_report}

record PhaseReport : Type 0 where
  phase : Dict ℕ
  fuyu_phase : Dict ℕ

abbrev new_phase_report : PhaseReport
new_phase_report = record { phase = []; fuyu_phase = ("CNiOSWuganEmpty", 0) ∷ [] }

-- m[k]++
unfoldable incr : String → Dict ℕ → Dict ℕ
unfolding insert lookup
incr k m = insert k (elim (lookup k m) [ none ↦ 1 | some n ↦ n + 1 ]) m

unfoldable record_phase : Context → PhaseReport → PhaseReport
unfolding incr
record_phase ctx p = record {
  phase = incr ctx.phase p.phase;
  fuyu_phase = incr (if ctx.fuyu_phase == "" then "Normal" else ctx.fuyu_phase) p.fuyu_phase;
}

record ReportInfo : Type 0 where
  inited : Bool
  utc : String
  retrieval : Option RetrievalReport
  phase : Option PhaseReport

abbrev new_info : ReportInfo
new_info = record { inited = false; utc = ""; retrieval = none; phase = none }

unfoldable visit : ReportInfo → ReportInfo
visit info =
    if info.inited
    then info
    else record info { inited = true; retrieval = some new_report; phase = some new_phase_report }

unfoldable clear : ReportInfo → ReportInfo
clear info = record info { inited = false; retrieval = none; phase = none }

-- reportInfo.getReports: what it leaves in the report that it prints
unfoldable get_info_reports : String → ReportInfo → Run ReportInfo
unfolding visit
get_info_reports utc info = elim (visit (record info { utc = utc })).retrieval [
  | none ↦ panic
  | some t ↦
      pre_report t >>= λ t'. ok (record (visit (record info { utc = utc })) { retrieval = some t' })
]

-- report.Info; a minute is below 60
abbrev Minutes : Type 0
Minutes = ℕ → ReportInfo

-- info := &s.report.Info[minute], written through the pointer
abbrev put_minute : ℕ → ReportInfo → Minutes → Minutes
put_minute minute info report = λ m. if m == minute then info else report m

-- report.getReports at the time `now` in seconds, whose text is `utc`: it prepares the minute before
unfoldable get_reports : String → ℕ → Minutes → Run Minutes
unfolding get_info_reports
get_reports utc now report =
    let minute = (now / 60 + 59) % 60 in
    get_info_reports utc (report minute) >>= λ info. ok (put_minute minute info report)

-- the number of ads, which is not negative where it is used
abbrev nat_of : ℤ → ℕ
nat_of (pos n) = n
nat_of (negsuc n) = 0

-- ctxToReq: the context, whose AdNum is raised to the number of offers, and the request
unfoldable ctx_to_req : Context → List String → Context × Request
ctx_to_req ctx offers =
    let filled = length offers in
    let raised = if ltb_ℤ ctx.ad_num (pos filled) then pos filled else ctx.ad_num in
    (
      record ctx { ad_num = raised },
      record {
        num_req = nat_of raised;
        num_filled = filled;
        country = ctx.country;
        platform = ctx.platform;
        adtype = ctx.ad_type;
        slotid = ctx.slot_id;
        offers = offers;
      },
    )

-- recordRequest and recordPhase on a report that has been visited
unfoldable record_info : (ℕ → ℕ → String) → Context → Request → ReportInfo → Run ReportInfo
unfolding record_phase
record_info percent ctx r info = elim info.retrieval [
  | none ↦ panic
  | some t ↦ record_request percent r t >>= λ t'. elim info.phase [
    | none ↦ panic
    | some p ↦ ok (record info { retrieval = some t'; phase = some (record_phase ctx p) })
  ]
]

-- the body of the loop of Serve: at the tick `now` it clears the report of the minute after
unfoldable clear_next : ℕ → Minutes → Minutes
unfolding clear
clear_next now report =
    let minute = (now / 60 + 1) % 60 in put_minute minute (clear (report minute)) report
