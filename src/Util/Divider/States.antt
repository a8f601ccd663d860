-- ===== src/Util/Divider/States.antt =====
-- The divider of util/traffic_divider.go from its making to its draws.
use real_api_server.Prelude.{
  ℕ, zero, suc, ◌+◌, ◌<◌, ◌≡◌, refl, String, true, false, some, List, [], ◌∷◌, ◌++◌, map, length,
  length-append, get_elem?, nat_eq, arith,
}
use real_api_server.Prelude.Float.{Float64}
use real_api_server.Util.Divider.{
  Result, ok, err, panic, not_compiled, has_compiled, Divider, new_divider, add_obj, compile,
  get_obj, last_weight,
}

module _ (fl : Float64) (Obj : Type 0) where
  -- AddObj with its three arguments.
  abbrev pub Entry : Type 0
  Entry = fl.F × Obj × String

  -- calls of AddObj one after the other
  pub add_all : List Entry → Divider fl Obj → Result (Divider fl Obj)
  unfolding add_obj
  add_all [] d = ok d
  add_all ((w, o, l) ∷ entries) d = elim (add_obj fl Obj w o l d) [
    | ok d' ↦ add_all entries d'
    | err e ↦ err e
    | panic ↦ panic
  ]

  -- An open divider with `n` objects.
  abbrev Holds : Divider fl Obj → ℕ → Type 0
  Holds d n =
      (d.compiled ≡ false)
      × (length d.weight_list ≡ n)
      × (length d.obj_list ≡ n)
      × (length d.label_list ≡ n)

  add_all-Holds :
      (entries : List Entry) (d : Divider fl Obj) (n : ℕ)
      → Holds d n
      → (d' : Divider fl Obj) × (add_all entries d ≡ ok d') × Holds d' (n + length entries)
  unfolding add_all
  add_all-Holds [] d n (c, w, o, l) =
      (d, refl, (c, omega (arith, w), omega (arith, o), omega (arith, l)))
  add_all-Holds ((x, y, z) ∷ entries) d n (c, w, o, l) =
      let next : Divider fl Obj = record d {
        sum = fl.add d.sum x;
        weight_list = d.weight_list ++ fl.add (last_weight fl Obj d.weight_list) x ∷ [];
        obj_list = d.obj_list ++ y ∷ [];
        label_list = d.label_list ++ z ∷ [];
        compiled = false;
      } in
      let one = (fl.add (last_weight fl Obj d.weight_list) x ∷ []) in
      let (d', e, (c', w', o', l')) = add_all-Holds entries next (n + 1) (
        refl,
        omega (arith, w, length-append {0} d.weight_list one),
        omega (arith, o, length-append {0} d.obj_list (y ∷ [])),
        omega (arith, l, length-append {0} d.label_list (z ∷ [])),
      ) in
      (d', rw (c, add_all) e, (c', omega (arith, w'), omega (arith, o'), omega (arith, l')))

  compiled_all :
      (d : Divider fl Obj) (n : ℕ)
      → Holds d n
      → 0 < n
      → (d' : Divider fl Obj) × (compile fl Obj d ≡ ok d')
        × (d'.compiled ≡ true)
        × (length d'.obj_list ≡ n)
        × (length d'.label_list ≡ n)
  unfolding compile
  compiled_all d n (c, w, o, l) h = (
    record d { weight_list = map (λ w. fl.div w d.sum) d.weight_list; compiled = true },
    ground (arith, c, w, h),
    refl,
    o,
    l,
  )

  within_list :
      {A : Type 0} (l : List A) (i : ℕ) → i < length l → (a : A) × (get_elem? l i ≡ some a)
  within_list [] i h = absurd (omega (arith, h))
  within_list (x ∷ l) zero h = (x, refl)
  within_list (x ∷ l) (suc i) h = within_list l i (omega (arith, h))

  -- A new divider that gets objects by AddObj, at least one, is compiled without an error, and after
  -- that AddObj and Compile report that it is compiled, and GetObj never fails as long as the search in
  -- the list of the weights ends before its end. Before, GetObj reports that it is not compiled.
  pub get_obj-add_all :
      (entry : Entry) (entries : List Entry)
      → (open_ : Divider fl Obj) × (add_all (entry ∷ entries) (new_divider fl Obj) ≡ ok open_)
        × ((search : List fl.F → fl.F → ℕ) (r : fl.F)
            → get_obj fl Obj search r open_ ≡ err not_compiled)
        × (d : Divider fl Obj) × (compile fl Obj open_ ≡ ok d)
        × (compile fl Obj d ≡ err has_compiled)
        × ((w : fl.F) (o : Obj) (l : String) → add_obj fl Obj w o l d ≡ err has_compiled)
        × ((search : List fl.F → fl.F → ℕ) (r : fl.F)
            → search d.weight_list r < length (entry ∷ entries)
            → (o : Obj) × (l : String) × (get_obj fl Obj search r d ≡ ok (o, l)))
  get_obj-add_all entry entries =
      let (open_, e, h) =
        add_all-Holds (entry ∷ entries) (new_divider fl Obj) 0 (refl, refl, refl, refl) in
      let (d, f, c, o, l) = compiled_all open_ (0 + length (entry ∷ entries)) h (omega arith) in
      (
        open_,
        e,
        (λ search r. unfold get_obj in ground (arith, h.0)),
        d,
        f,
        (unfold compile in ground (arith, c)),
        (λ w x y. unfold add_obj in ground (arith, c)),
        λ search r small.
            let (x, p) =
              within_list d.obj_list (search d.weight_list r) (omega (arith, small, o)) in
            let (y, q) =
              within_list d.label_list (search d.weight_list r) (omega (arith, small, l)) in
            (x, y, unfold get_obj in ground (arith, c, p, q)),
      )
