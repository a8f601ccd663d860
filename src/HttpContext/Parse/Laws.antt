-- ===== src/HttpContext/Parse/Laws.antt =====
-- The walk over ctxInitHelper, if its order names every handler: it succeeds exactly if no handler
-- refuses the request, and gives the fields of all.
use mathlib.Core.Path.{fun_ext}
use real_api_server.Prelude.{
  ℕ, String, true, false, List, [], ◌∷◌, ◌==◌, nat_eq, string_eq, ◌≡◌, refl, arith, sym, ap, ◌∙◌,
  Bool-cases, inl, inr, Within,
}
use real_api_server.Prelude.Dict.{Dict}
use real_api_server.HttpContext.Parse.{GoText, HttpRequest, Params, unset, Handler, Parsed, err, ok}
use real_api_server.HttpContext.Parse.Walk.{walk}
use real_api_server.HttpContext.Parse.Orders.{
  number, Ran, with_handler, alone, followed, set_by, handle-set_by,
}

-- The order of the walk names every handler.
abbrev pub Covers : List Handler → Type 0
Covers ks = (k : Handler) → Within k ks

abbrev covered : List Handler → Ran → Ran
covered [] m = m
covered (k ∷ ks) m = covered ks (with_handler k m)

eq_same : (n : ℕ) → (n == n) ≡ true
eq_same n = ground arith

keep-with_handler : (j k : Handler) (m : Ran) → m k ≡ true → with_handler j m k ≡ true
keep-with_handler j k m h = elim (Bool-cases (number j == number k)) [
  | inl e ↦ rw e refl
  | inr e ↦ rw e h
]

keep-covered : (ks : List Handler) (k : Handler) (m : Ran) → m k ≡ true → covered ks m k ≡ true
keep-covered [] k m h = h
keep-covered (j ∷ ks) k m h = keep-covered ks k (with_handler j m) (keep-with_handler j k m h)

covered-Within : (ks : List Handler) (k : Handler) (m : Ran) → Within k ks → covered ks m k ≡ true
covered-Within [] k m w = elim w [ ]
covered-Within (j ∷ ks) k m (inl e) =
    keep-covered ks k (with_handler j m) (rw e (rw (eq_same (number j)) refl))
covered-Within (j ∷ ks) k m (inr w) = covered-Within ks k (with_handler j m) w

then_walk :
    (p : Parsed) (s : Params) (goes_on : Params → Parsed) (q : Parsed)
    → goes_on s ≡ q
    → (elim (followed p s) [ err e ↦ err e | ok t ↦ goes_on t ])
      ≡ (elim p [ err e ↦ err e | ok t ↦ q ])
then_walk (err e) s goes_on q h = refl
then_walk (ok t) s goes_on q h = h

behind :
    (p q : Parsed) (s : Params)
    → (elim p [ err e ↦ err e | ok t ↦ q ]) ≡ ok s
    → ((t : Params) × (p ≡ ok t)) × (q ≡ ok s)
behind (err e) q s h = cc
behind (ok t) q s h = ((t, refl), h)

ok_injective : (s t : Params) → ok s ≡ ok t → s ≡ t
ok_injective s t h = cc

module _ (go : GoText) (r : HttpRequest) (form : Dict String) (rand8 : String) where
  -- the first refusal, or `p`
  abbrev first : List Handler → Parsed → Parsed
  first [] p = p
  first (k ∷ ks) p = elim (alone go r form rand8 k) [ err e ↦ err e | ok s ↦ first ks p ]

  walk-set_by :
      (ks : List Handler) (m : Ran)
      → walk go r form rand8 ks (set_by go r form rand8 m)
        ≡ first ks (ok (set_by go r form rand8 (covered ks m)))
  unfolding walk
  walk-set_by [] m = refl
  walk-set_by (k ∷ ks) m =
      ap (λ p. elim p [ err e ↦ err e | ok t ↦ walk go r form rand8 ks t ])
        (handle-set_by go r form rand8 k m)
      ∙ then_walk (alone go r form rand8 k) (set_by go r form rand8 (with_handler k m))
          (walk go r form rand8 ks) _ (walk-set_by ks (with_handler k m))

  -- The context once every handler has run.
  abbrev pub whole : Params
  whole = set_by go r form rand8 (λ k. true)

  walk-whole : (ks : List Handler) → Covers ks → walk go r form rand8 ks unset ≡ first ks (ok whole)
  unfolding set_by
  walk-whole ks h =
      walk-set_by ks (λ k. false)
      ∙ ap (λ m. first ks (ok (set_by go r form rand8 m)))
          (fun_ext (λ k. covered-Within ks k (λ j. false) (h k)))

  -- No handler refuses the request.
  abbrev pub Clean : Type 0
  Clean = (k : Handler) → (s : Params) × (alone go r form rand8 k ≡ ok s)

  first-Clean : (ks : List Handler) (p : Parsed) → Clean → first ks p ≡ p
  first-Clean [] p c = refl
  first-Clean (k ∷ ks) p c = rw ((c k).1, first) (first-Clean ks p c)

  clean_of-first :
      (ks : List Handler) (p : Parsed) (s : Params)
      → first ks p ≡ ok s
      → (k : Handler) → Within k ks
      → (t : Params) × (alone go r form rand8 k ≡ ok t)
  clean_of-first [] p s e k w = elim w [ ]
  clean_of-first (j ∷ ks) p s e k (inl w) =
      rw w (behind (alone go r form rand8 j) (first ks p) s e).0
  clean_of-first (j ∷ ks) p s e k (inr w) =
      clean_of-first ks p s (behind (alone go r form rand8 j) (first ks p) s e).1 k w

  pub walk-ok :
      (ks : List Handler) (s : Params)
      → Covers ks
      → walk go r form rand8 ks unset ≡ ok s
      → Clean × (s ≡ whole)
  walk-ok ks s h e =
      let from_whole : first ks (ok whole) ≡ ok s = sym (walk-whole ks h) ∙ e in
      let clean : Clean = λ k. clean_of-first ks (ok whole) s from_whole k (h k) in
      (clean, ok_injective s whole (sym from_whole ∙ first-Clean ks (ok whole) clean))

  pub walk-Clean :
      (ks : List Handler) → Covers ks → Clean → walk go r form rand8 ks unset ≡ ok whole
  walk-Clean ks h c = walk-whole ks h ∙ first-Clean ks (ok whole) c
