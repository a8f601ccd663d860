-- ===== src/Lib.antt =====
-- The ad server real_api_server: which offers a request gets, and what is kept about requests.
--
-- A request is parsed into a context, the offers are searched by conditions and filtered by the
-- retrieval service, the rank client chooses among them, and the answer is rendered. Slots and apps
-- say what a publisher admits; a Bloom filter keeps what a device has; callbacks to other servers
-- wait in a queue; the requests are counted for the status page.
--
-- Parts and files (paths from the repository's root):
--   Prelude and its children: names of the libraries, tests, lists, signed integers, maps as
--     association lists, calls that may panic, and an interface for float64 without any law.
--   GoHeap: Go's container/heap, with which tpl/s2s_heap.go and status/retrieval_report.go work:
--     push, pop, up, down are heap.Push, heap.Pop and its unexported up and down.
--   HttpContext: src/http_context/http_context.go, the kinds of requests (IsWugan and others), the
--     frequency caps (InFreqCap, PreClickInFreqCap, UserFreqCap, VideoInCompleteCap), IncrPreClickFreq
--     and Debug, and GetFreq with what the cache gives it. A record keeps the fields that the modelled
--     code reads or writes. HttpContext.Parse and its children are NewContext: ctxInitHelper is the
--     list of the handlers with the function handle, and the walk over this map, whose order Go leaves
--     open, takes the order as an argument.
--   RawAd: src/raw_ad/raw_ad.go, an offer with its sets; RawAd.Target is AddTarget and
--     addMaterialTarget, RawAd.Image is the size rules and GetMaxMatchedImg, RawAd.Videos the choice of a
--     video, RawAd.Media the rest of the choice of icons, pictures and videos, up to HasMatchedCreative.
--     RawAd.Media.Creative is getMatchedCreative. RawAd.Media.Icons says when getMatchedIcon finds an icon.
--     RawAd.Click is src/raw_ad/click_url.go, the choice of the generator of click urls: of the
--     generators only genMobiMaxClkUrl can panic, and the urls are left out.
--   Bloom: src/ct_bloom/ct_bloom.go, with the same names as the code's in snake case.
--   Ssp: src/ssp/ssp_info.go, InWhiteList, SlotImpInCap, GetVideoSlot and GetAllSlotInApp. A pointer to
--     a slot is its id in the store, so that a write through it changes the store. Ssp.Brothers is
--     GenBrothers and GetRandomBrother, Ssp.Slots the small tests of slots and the maps of Update,
--     Ssp.Manager src/ssp/v3_ssp_info.go, AddSlot, genToken and GenAuxiliaryGlobalConf.
--   Retrieval: src/retrieval/service.go (adSearch, matchKeyWords, makeRetrievalConditions) and the checks
--     of retrievalHandler in src/retrieval/retrieval.go before its search. Retrieval.Filter is the filter
--     of that search, Retrieval.Fuyu is src/retrieval/fuyu.go, Retrieval.Wugan the views of
--     src/retrieval/wugan.go.
--     Retrieval.Tracks is SetCtxTks. Retrieval.VideoV4 and its child Ads are videoAdHandler of
--     src/retrieval/video_v4.go from a context to its answer, with the choices of ToVideoV4Ad in
--     src/raw_ad/raw_video_v4_ad_obj.go; the record VideoEnv holds what it reads and draws.
--     Retrieval.NativeV4 is videov4NativeHandler there, with the choices of ToNativeVideoV4Ad.
--   Life: src/tpl/life.go, lifeHandler and getShouldUpdateSlots.
--   Cpt: src/cpt/cpt.go, initMedia, Init, getCptDocs and GetCptDocs.
--   Pacing: src/pacing/pacing.go, Add and OverCap, which the filters call.
--   ClickCounter: src/click_counter/click_counter.go. Set: src/set/set.go.
--   Util: src/util/util.go, the letter table and Shuffle, and Util.Divider,
--     src/util/traffic_divider.go.
--   Subscription: src/subscription/subscription.go, the update of the dividers by country, addApp and
--     GetMoreSubJs.
--   Rank: src/rank/rank.go, Select, SelectWg, RandCopy, randomCopy, priorityCopy and the requests to the
--     rank server; a call of the server is a parameter that gives its answer or none. A slice for more
--     than 2^45 pointers, which do not fit in an address space of 48 bits, panics. Rank.Video is
--     src/rank/video/video_rank.go, Select and SelectCreative from the answer of the server on.
--   Callback: src/tpl/s2s_heap.go, the heap of callbacks and the inner loop of Serve.
--   Status.Report: src/status/retrieval_report.go, recordRequest, setTop and preReport; a map that the
--     code sets to nil is none, and a write to it panics.
--   Status.Minutes: src/status/status.go, report.go, phase_report.go and request.go beside it, the reports
--     of the sixty minutes, which Status.Report's recordRequest fills. Each function is a part that runs
--     under one lock or between two; the schedules of these parts are not modelled.
--   Status.Sample: src/status/ctrl.go, the sampling as a step function of an action that the schedule
--     chooses: goroutines at a point of the code are counted, a critical section is one step, and a
--     reader that sends on the reset channel keeps its read lock.
--   Samples and the modules named Tests: concrete data and runs.
--
-- Conventions: int is ℕ where the code keeps it from being negative, else ℤ; random draws, time, the
-- network, checksums and number formats are parameters, and so are the index of the offers, the
-- expiring map of the pacing, strings.Split, time.Parse and Decrypt of src/aes/aes.go, which may panic. The
-- walk over a Go map is the order of the association list. Overflow of int is not modelled.
--
-- Fuel: the loops of container/heap run on the length of the slice plus one, which exceeds their
-- rounds, since an index moves towards the root or away from it in each. The serving loop takes its
-- fuel as an argument; the attempts that are left to the items bound its rounds.
--
-- Not modelled: the clients of the ad networks, the reading of updates, caches and configurations,
-- and the rendering of templates and VAST documents are input, output and text. Of the answers of
-- the two handlers of videos the urls, the texts and the trackers are left out. The conversion of
-- offers, the scripts of the subscriptions and the other handlers are not modelled.
pub mod Prelude
pub mod GoHeap
pub mod Status
pub mod Callback
pub mod HttpContext
pub mod Life
pub mod RawAd
pub mod Bloom
pub mod Ssp
pub mod Rank
pub mod Retrieval
pub mod Samples
pub mod Subscription
pub mod Util
pub mod Set
pub mod Pacing
pub mod ClickCounter
pub mod Cpt
