-- ===== src/Callback/Tests.antt =====
-- Concrete callback queues.
use real_api_server.Prelude.{ℕ, ◌<◌, ◌≡◌, refl, sym, subst, false, some, List, [], ◌∷◌, arith}
use real_api_server.Prelude.Run.{ok}
use real_api_server.GoHeap.Order.{LeAt, parent}
use real_api_server.Callback.{CbItem, top, serve}
use real_api_server.Callback.Order.{IsQueue, Taken, place_p, place_n, pop-due}
use real_api_server.Callback.Retry.{IsLive, Waits, serve_ends}

abbrev item_at : ℕ → ℕ → CbItem
item_at fails t = record {
  uniq_id = "u";
  sign_key = "k";
  cb_url = "http://a/cb";
  fail_count = fails;
  launch_time = t;
}

abbrev two_items : List CbItem
two_items = item_at 0 10 ∷ item_at 1 20 ∷ []

two_items-IsQueue : IsQueue two_items
two_items-IsQueue = λ c u w.
    let e : c ≡ 1 = omega arith in
    subst (λ i. LeAt place_p place_n two_items (parent i) i) (sym e) (omega arith)

top_eq : top two_items ≡ some (item_at 1 20)
unfolding top
top_eq = refl

pop-due_example :
    (x : CbItem) × (rest : List CbItem) × Taken two_items x rest × (x.launch_time < 30)
pop-due_example = pop-due two_items (item_at 1 20) 30 two_items-IsQueue top_eq (omega arith)

serve_ends_example :
    (h' : List CbItem) × (serve (λ _. false) 9 100 two_items ≡ ok (some h'))
    × IsLive h'
    × Waits 100 (top h')
serve_ends_example =
    serve_ends (λ _. false) 9 100 two_items (record { order = two_items-IsQueue; fresh = refl })
      (omega arith)
