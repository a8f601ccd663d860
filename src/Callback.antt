-- ===== src/Callback.antt =====
-- tpl/s2s_heap.go: the queue of server-to-server callbacks and its serving loop.
-- Times are seconds. `reply` is the network: whether the GET of an item's url came back with a
-- status code from 200 to 299, given the whole item (so the attempt's number too).
pub mod Order
pub mod Retry
mod Tests
use real_api_server.Prelude.{
  ℕ, zero, suc, ◌+◌, ◌-◌, String, Bool, true, false, Option, none, some, List, [], ◌∷◌, ◌++◌,
  length, get_elem?, ltb, leb, if◌then◌else◌,
}
use real_api_server.Prelude.Run.{Run, ok, panic, ◌>>=◌}
use real_api_server.GoHeap

pub record CbItem : Type 0 where
  pub uniq_id : String
  pub sign_key : String
  pub cb_url : String
  pub fail_count : ℕ
  pub launch_time : ℕ

pub new_cb_item : String → String → String → ℕ → CbItem
new_cb_item cb uniq sign_key now = record {
  uniq_id = uniq;
  sign_key = sign_key;
  cb_url = cb;
  fail_count = 0;
  launch_time = now;
}

-- cbHeap.Less
abbrev pub less : CbItem → CbItem → Bool
less a b = ltb a.launch_time b.launch_time

-- cbHeap.Push: an item that has failed more than three times is dropped
pub append : List CbItem → CbItem → List CbItem
append h item = if ltb 3 item.fail_count then h else h ++ item ∷ []

-- heapWrapper.Push: heap.Push sifts the last entry up, whether or not Push appended one
pub push : List CbItem → CbItem → List CbItem
unfolding append GoHeap.sift_last
push h item = GoHeap.sift_last less (append h item)

-- heapWrapper.Pop
pub pop : List CbItem → Run (CbItem × List CbItem)
unfolding GoHeap.pop
pop h = elim (GoHeap.pop less h) [ none ↦ panic | some r ↦ ok r ]

-- heapWrapper.Top: the last entry of the slice
pub top : List CbItem → Option CbItem
top [] = none
top (x ∷ h) = get_elem? (x ∷ h) (length h)

-- What Callback does to the item; the next attempt is 15 seconds later.
pub attempted : CbItem → CbItem
attempted item = record item {
  fail_count = item.fail_count + 1;
  launch_time = item.launch_time + 15;
}

module _ (reply : CbItem → Bool) where
  -- one round of the inner loop of Serve
  pub serve_one : List CbItem → Run (List CbItem)
  unfolding pop push attempted
  serve_one h = do
    (item, rest) ← pop h
    ok (if reply (attempted item) then rest else push rest (attempted item))

  -- for item != nil && item.LaunchTime.Before(now): `some` of the heap when the loop is left,
  -- `none` when the fuel runs out.
  pub serve : ℕ → ℕ → List CbItem → Run (Option (List CbItem))
  unfolding serve_one top
  serve zero now h = ok none
  serve (suc fuel) now h = elim (top h) [
    | none ↦ ok (some h)
    | some item ↦
        let round = serve_one h >>= serve fuel now in
        if ltb item.launch_time now then round else ok (some h)
  ]
