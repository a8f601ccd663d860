-- ===== src/Util/Tests.antt =====
-- Concrete texts, slices and dividers.
use real_api_server.Prelude.{ℕ, ◌≡◌, ◌<◌, String, List, [], ◌∷◌, map}
use real_api_server.Prelude.Int.{ℤ, pos}
use real_api_server.Util.Alpha.{
  alpha_table_encode, alpha_table_decode, told, alpha_table_decode-encode,
}
use real_api_server.Util.Divider.{
  Divider, ok, err, not_compiled, has_compiled, new_divider, add_obj, compile, get_obj,
}
use real_api_server.Util.Divider.States.{add_all, get_obj-add_all}
use real_api_server.Samples.{whole_floats}

abbrev version_text : List ℕ
version_text = b'9' ∷ b'.' ∷ b'x' ∷ []

alpha_table_decode-encode_example :
    alpha_table_decode (alpha_table_encode version_text) ≡ map told version_text
alpha_table_decode-encode_example = alpha_table_decode-encode version_text

get_obj-add_all_example :
    (open_ : Divider whole_floats ℕ) × (add_all whole_floats ℕ
        ((pos 2, 5, "a") ∷ (pos 3, 6, "b") ∷ [])
        (new_divider whole_floats ℕ)
      ≡ ok open_)
    × ((search : List ℤ → ℤ → ℕ) (r : ℤ) → get_obj whole_floats ℕ search r open_ ≡ err not_compiled)
    × (d : Divider whole_floats ℕ) × (compile whole_floats ℕ open_ ≡ ok d)
    × (compile whole_floats ℕ d ≡ err has_compiled)
    × ((w : ℤ) (o : ℕ) (l : String) → add_obj whole_floats ℕ w o l d ≡ err has_compiled)
    × ((search : List ℤ → ℤ → ℕ) (r : ℤ)
        → search d.weight_list r < 2
        → (o : ℕ) × (l : String) × (get_obj whole_floats ℕ search r d ≡ ok (o, l)))
get_obj-add_all_example = get_obj-add_all whole_floats ℕ (pos 2, 5, "a") ((pos 3, 6, "b") ∷ [])
