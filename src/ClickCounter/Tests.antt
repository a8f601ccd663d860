-- ===== src/ClickCounter/Tests.antt =====
-- Concrete clicks.
use real_api_server.Prelude.{◌≡◌, List, [], ◌∷◌}
use real_api_server.Prelude.Int.{pos, ◌+ℤ◌}
use real_api_server.ClickCounter.{new_click_counter}
use real_api_server.ClickCounter.Totals.{
  Event, click, submit, run, posted, pending, clicked, run-adds,
}

abbrev events : List Event
events = click "a" (pos 2) ∷ submit ∷ click "a" (pos 1) ∷ []

run-adds_example :
    posted "a" (run events new_click_counter).0
      +ℤ pending "a" (run events new_click_counter).1.click_count
    ≡ pending "a" new_click_counter.click_count +ℤ clicked "a" events
run-adds_example = run-adds "a" events new_click_counter
