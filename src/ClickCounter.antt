-- ===== src/ClickCounter.antt =====
-- click_counter/click_counter.go: clicks are added up by offer and submitted at every tick.
pub mod Totals
mod Tests
use real_api_server.Prelude.{
  ℕ, String, Bool, true, false, Option, none, some, List, [], ◌∷◌, map, if◌then◌else◌, ltb,
}
use real_api_server.Prelude.Int.{ℤ, pos, ◌+ℤ◌}
use real_api_server.Prelude.Dict.{Dict, lookup, insert}

pub record OfferCount : Type 0 where
  pub clk_num : ℤ
  pub offer_id : String

pub record Counter : Type 0 where
  pub click_count : Dict ℤ

abbrev pub new_click_counter : Counter
new_click_counter = record { click_count = [] }

-- ck.clickCount[oid] += nClick; a missing key reads 0. The map is never nil.
pub add_click : String → ℤ → Counter → Counter
add_click oid n_click ck = record ck {
  click_count =
      insert oid (elim (lookup oid ck.click_count) [ none ↦ n_click | some n ↦ n +ℤ n_click ])
        ck.click_count;
}

-- The offers of the body that is posted.
pub offers_of : Dict ℤ → List OfferCount
offers_of [] = []
offers_of ((oid, cnt) ∷ m) = record { clk_num = cnt; offer_id = oid } ∷ offers_of m

-- submitClickCount: the body, and the counter with a new map
pub submit_click_count : Counter → List OfferCount × Counter
unfolding offers_of
submit_click_count ck = (offers_of ck.click_count, record ck { click_count = [] })

-- the period of Ticker, in seconds
pub period : ℕ → ℕ
period speed = if ltb speed 60 then 60 else speed
