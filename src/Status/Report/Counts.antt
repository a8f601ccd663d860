-- ===== src/Status/Report/Counts.antt =====
-- What one request adds to the entries of a report of status/retrieval_report.go.
use real_api_server.Prelude.{
  ℕ, ◌+◌, String, Bool, true, false, ◌≡◌, refl, sym, ◌∙◌, subst, Option, none, some, List, [], ◌∷◌,
  arith, ◌==◌, string_eq, nat_eq, if◌then◌else◌, Bool-cases, inl, inr, eq_iff,
}
use real_api_server.Prelude.Dict.{Dict, lookup, insert, lookup-insert}
use real_api_server.Prelude.Run.{ok, >>=-eq-ok}
use real_api_server.Status.Report.{
  Elem, Request, RetrievalReport, find, put, offered, counted, new_elem, add_req, rate, count_in,
  count_offers, count_platform, count_slot, record_request,
}

-- The numbers of an entry, 0 where there is none.
abbrev pub req_of : Option Elem → ℕ
req_of none = 0
req_of (some e) = e.req

abbrev pub filled_of : Option Elem → ℕ
filled_of none = 0
filled_of (some e) = e.filled

ok_inj : (u v : RetrievalReport) → ok u ≡ ok v → u ≡ v
ok_inj u v h = cc

-- How often a text stands in a list.
pub times : String → List String → ℕ
times k [] = 0
times k (j ∷ l) = (if j == k then 1 else 0) + times k l

-- The offer `k` has as many requests and as many filled more as it stands in the list.
abbrev pub Grown : String → List String → Option (Dict Elem) → Option (Dict Elem) → Type 0
Grown k oids m m' =
    (req_of (find k m') ≡ req_of (find k m) + times k oids)
    × (filled_of (find k m') ≡ filled_of (find k m) + times k oids)

find-put :
    (k j : String) (e : Elem) (m m' : Option (Dict Elem))
    → put k e m ≡ ok m'
    → find j m' ≡ (if k == j then some e else find j m)
unfolding put
find-put k j e none m' h = cc
find-put k j e (some m) none h = cc
find-put k j e (some m) (some m') h =
    let same : insert k e m ≡ m' = cc in
    subst (λ n. lookup j n ≡ (if k == j then some e else lookup j m)) same (lookup-insert k j e m)

offered_one :
    (o : Option Elem) → ((offered o).req ≡ req_of o + 1) × ((offered o).filled ≡ filled_of o + 1)
unfolding offered
offered_one none = (omega arith, omega arith)
offered_one (some e) = (refl, refl)

grown_if :
    (b : Bool) (e o p : Option Elem)
    → (b ≡ true → (req_of e ≡ req_of o + 1) × (filled_of e ≡ filled_of o + 1))
    → p ≡ (if b then e else o)
    → (req_of p ≡ req_of o + (if b then 1 else 0))
      × (filled_of p ≡ filled_of o + (if b then 1 else 0))
grown_if true e o p h q = let (u, v) = h refl in (ground (arith, q, u), ground (arith, q, v))
grown_if false e o p h q = (ground (arith, q), ground (arith, q))

offered_at :
    (oid k : String) (m : Option (Dict Elem))
    → oid ≡ k
    → ((offered (find oid m)).req ≡ req_of (find k m) + 1)
      × ((offered (find oid m)).filled ≡ filled_of (find k m) + 1)
offered_at oid k m same =
    subst
      (λ t.
        ((offered (find oid m)).req ≡ req_of (find t m) + 1)
        × ((offered (find oid m)).filled ≡ filled_of (find t m) + 1))
      same (offered_one (find oid m))

one_more :
    (oid k : String) (m n : Option (Dict Elem))
    → put oid (offered (find oid m)) m ≡ ok n
    → (req_of (find k n) ≡ req_of (find k m) + (if oid == k then 1 else 0))
      × (filled_of (find k n) ≡ filled_of (find k m) + (if oid == k then 1 else 0))
one_more oid k m n p =
    grown_if (oid == k) (some (offered (find oid m))) (find k m) (find k n)
      (λ e. offered_at oid k m ((eq_iff oid k).0 e)) (find-put oid k (offered (find oid m)) m n p)

count_offers-Grown :
    (oids : List String) (m m' : Option (Dict Elem)) (k : String)
    → count_offers oids m ≡ ok m'
    → Grown k oids m m'
unfolding count_offers times
count_offers-Grown [] m m' k h =
    let same : m ≡ m' = cc in subst (λ n. Grown k [] m n) same (omega arith, omega arith)
count_offers-Grown (oid ∷ rest) m m' k h =
    let (n, p, q) = >>=-eq-ok (put oid (offered (find oid m)) m) (count_offers rest) h in
    let (a, b) = count_offers-Grown rest n m' k q in
    let (c, d) = one_more oid k m n p in (omega (arith, a, c), omega (arith, b, d))

module _ (percent : ℕ → ℕ → String) (r : Request) where
  -- An entry with the numbers of the request added to those of another, and the rate of the sums.
  abbrev pub Plus : Option Elem → Option Elem → Type 0
  Plus o p =
      (e : Elem) × (p ≡ some e)
      × (e.req ≡ req_of o + r.num_req)
      × (e.filled ≡ filled_of o + r.num_filled)
      × (e.fill_rate ≡ (if e.req == 0 then "0%" else percent e.filled e.req))

  -- The request is added to the entry of `key`, and no other entry changes.
  abbrev pub AddedAt : String → Option (Dict Elem) → Option (Dict Elem) → Type 0
  AddedAt key m m' =
      Plus (find key m) (find key m') × ((k : String) → (key == k) ≡ false → find k m' ≡ find k m)

  counted-Plus : (o : Option Elem) → Plus o (some (counted percent r o))
  unfolding counted new_elem add_req rate
  counted-Plus none = (_, refl, omega arith, omega arith, refl)
  counted-Plus (some e) = (_, refl, refl, refl, refl)

  count_in-AddedAt :
      (key : String) (m m' : Option (Dict Elem))
      → count_in percent key r m ≡ ok m'
      → AddedAt key m m'
  unfolding count_in
  count_in-AddedAt key m m' h = (
    subst (Plus (find key m))
        (sym (
          find-put key key (counted percent r (find key m)) m m' h
          ∙ rw ((eq_iff key key).1 refl) refl))
        (counted-Plus (find key m)),
    λ k e. find-put key k (counted percent r (find key m)) m m' h ∙ rw e refl,
  )

  -- What counting by platform changes: the entries of the ad type and of the country there.
  abbrev pub ByPlatform : Bool → RetrievalReport → RetrievalReport → Type 0
  ByPlatform ios t t' =
      if ios
      then AddedAt r.adtype t.ios_ad_type t'.ios_ad_type
        × AddedAt r.country t.ios_country t'.ios_country
        × (t'.android_ad_type ≡ t.android_ad_type)
        × (t'.android_country ≡ t.android_country)
      else AddedAt r.adtype t.android_ad_type t'.android_ad_type
        × AddedAt r.country t.android_country t'.android_country
        × (t'.ios_ad_type ≡ t.ios_ad_type)
        × (t'.ios_country ≡ t.ios_country)

  abbrev Platform : Bool → RetrievalReport → RetrievalReport → Type 0
  Platform ios t t' = ByPlatform ios t t' × (t'.slots ≡ t.slots) × (t'.offers ≡ t.offers)

  abbrev CountedPlatform : RetrievalReport → RetrievalReport → Type 0
  CountedPlatform = Platform (r.platform == "iOS")

  count_platform-CountedPlatform :
      (t t' : RetrievalReport) → count_platform percent r t ≡ ok t' → CountedPlatform t t'
  unfolding count_platform
  count_platform-CountedPlatform t t' h = elim (Bool-cases (r.platform == "iOS")) [
    | inl ios ↦
        let (a, p, q) = >>=-eq-ok (count_in percent r.adtype r t.ios_ad_type) _ (rw ios at h) in
        let (c, p', q') = >>=-eq-ok (count_in percent r.country r t.ios_country) _ q in
        rw ios (
          subst (Platform true t) (ok_inj _ t' q') (
            (
              count_in-AddedAt r.adtype t.ios_ad_type a p,
              count_in-AddedAt r.country t.ios_country c p',
              refl,
              refl,
            ),
            refl,
            refl,
          ))
    | inr other ↦
        let (a, p, q) =
          >>=-eq-ok (count_in percent r.adtype r t.android_ad_type) _ (rw other at h) in
        let (c, p', q') = >>=-eq-ok (count_in percent r.country r t.android_country) _ q in
        rw other (
          subst (Platform false t) (ok_inj _ t' q') (
            (
              count_in-AddedAt r.adtype t.android_ad_type a p,
              count_in-AddedAt r.country t.android_country c p',
              refl,
              refl,
            ),
            refl,
            refl,
          ))
  ]

  -- What recording the request changes in a report, and what it leaves alone.
  abbrev pub Recorded : RetrievalReport → RetrievalReport → Type 0
  Recorded t t' =
      ByPlatform (r.platform == "iOS") t t'
      × (if r.adtype == "8"
          then (t'.slots ≡ t.slots) × (t'.offers ≡ t.offers)
          else AddedAt r.slotid t.slots t'.slots
            × ((k : String) → Grown k r.offers t.offers t'.offers))

  -- When a request is recorded without a panic, its numbers of ads and of filled ads are added to
  -- the entry of its ad type and to the entry of its country, in the maps of its platform ("iOS", or
  -- Android for any other text), where an entry that is not there counts as 0, and the rate of the
  -- entry is that of the sums. No other entry of these maps and no map of the other platform
  -- changes. A promotion (ad type "8") leaves the maps of slots and of offers as they are. For any
  -- other request its numbers are added to the entry of its slot in the same way, no other slot
  -- changes, and the requests and the filled ads of every offer grow by the number of times the
  -- offer stands in the list of the request.
  pub record_request-Recorded :
      (t t' : RetrievalReport) → record_request percent r t ≡ ok t' → Recorded t t'
  unfolding record_request count_slot
  record_request-Recorded t t' h =
      let (u, p, q) = >>=-eq-ok (count_platform percent r t) _ h in
      let (k, s, o) = count_platform-CountedPlatform t u p in
      elim (Bool-cases (r.adtype == "8")) [
        | inl promote ↦
            let same : u ≡ t' = ok_inj u t' (rw promote at q) in
            (
              subst (ByPlatform (r.platform == "iOS") t) same k,
              rw promote (subst (λ v. (v.slots ≡ t.slots) × (v.offers ≡ t.offers)) same (s, o)),
            )
        | inr other ↦
            let (a, ps, q') = >>=-eq-ok (count_in percent r.slotid r u.slots) _ (rw other at q) in
            let (b, po, q'') = >>=-eq-ok (count_offers r.offers u.offers) _ q' in
            let same : record u { slots = a; offers = b } ≡ t' = ok_inj _ t' q'' in
            (
              subst (ByPlatform (r.platform == "iOS") t) same k,
              rw other (
                  subst
                    (λ v.
                      AddedAt r.slotid t.slots v.slots
                      × ((j : String) → Grown j r.offers t.offers v.offers))
                    same
                    (
                      subst (λ m. AddedAt r.slotid m a) s (count_in-AddedAt r.slotid u.slots a ps),
                      λ j.
                          subst (λ m. Grown j r.offers m b) o
                            (count_offers-Grown r.offers u.offers b j po),
                    )),
            )
      ]
