-- ===== src/Versions/Honest.antt =====
-- A negotiation that nobody tampers with: the versions that the client offers, the server's choice
-- among them, and the client's check.
use openssl_3_0_bee2evp.Prelude.{
  subst, if-eq, ap₂, ◌∙◌, sym, ap, suc, zero, ℕ, ◌+◌, ◌-◌, ◌<◌, ◌≡◌, refl, inl, inr, Bool, true,
  false, not, ◌&&◌, ◌||◌, none, some, List, [], ◌∷◌, ltb, leb, ◌==◌, if-holds, Bool-cases, arith,
}
use openssl_3_0_bee2evp.Ssl.{is_hrr_none}
use openssl_3_0_bee2evp.Versions.{
  Config, VersionInfo, Handle, tls_version_table, IsNumbered, supported_in, is_supported,
}
use openssl_3_0_bee2evp.Versions.Server.{
  Hello, Downgrade, downgrade_none, Choice, choose_server_version, check_for_downgrade,
}
use openssl_3_0_bee2evp.Versions.Range.{RangeResult, get_min_max_version, no_range, range, Bounds}
use openssl_3_0_bee2evp.Versions.Client.{
  Parsed, Verdict, check_downgrade, choose_client_version, ends_with, find_method, versions_down,
  offered, construct_supported_versions, offer_of,
}
use openssl_3_0_bee2evp.Versions.Random.{tls11downgrade, tls12downgrade}
use openssl_3_0_bee2evp.Versions.Tables.{
  IsFlexible, version_cmp-equal, version_supported-tls, tls_table-is_tagged,
}
use openssl_3_0_bee2evp.Versions.Best.{
  supports, told, greatest, listed, choose_server_version-greatest,
}
use openssl_3_0_bee2evp.Versions.Contiguous.{
  Run, no_run, run, lowest_run, ends, run_ends, tls_table-descends, get_min_max_version-lowest_run,
}
use openssl_3_0_bee2evp.Versions.Found.{has, within, within-finds, IsFound, find_method-IsFound}
use openssl_3_0_bee2evp.Versions.Marks.{failed, marked, choose_server_version-IsMarked}
use openssl_3_0_bee2evp.Versions.Sentinel.{Proposes, choose_client_version-inside, at, counted}

-- The greatest of a list of consecutive numbers that satisfies a test.
module _ (p : ℕ → Bool) where
  greatest-holds : (list : List ℕ) → (greatest p list == 0 || p (greatest p list)) ≡ true
  unfolding greatest
  greatest-holds [] = refl
  greatest-holds (v ∷ list) = elim (Bool-cases (p v && ltb (greatest p list) v)) [
    | inl top ↦ rw top (ground (arith, top))
    | inr not_top ↦ rw not_top (greatest-holds list)
  ]

  greatest-down :
      (n top : ℕ)
      → (greatest p (versions_down n top) == 0
          || (leb (greatest p (versions_down n top)) top
              && ltb top (greatest p (versions_down n top) + n)))
        ≡ true
  unfolding greatest
  greatest-down zero top = refl
  greatest-down (suc n) top = ground (arith, greatest-down n (top - 1))

  down-greatest :
      (n top v : ℕ)
      → leb v top ≡ true
      → ltb top (v + n) ≡ true
      → p v ≡ true
      → leb v (greatest p (versions_down n top)) ≡ true
  unfolding greatest
  down-greatest zero top v low high h = ground (arith, low, high)
  down-greatest (suc n) top v low high h = elim (Bool-cases (v == top)) [
    | inl here ↦
        let same : v ≡ top = ground (arith, here) in
        ground (arith, same, ap p same ∙ refl, sym (ap p same) ∙ h)
    | inr further ↦ ground (arith, low, high, further, down-greatest n (top - 1) v)
  ]

-- A supported version is in the table.
supported_in-has :
    (k : Config) (s : Handle) (v : ℕ) (table : List VersionInfo)
    → is_supported (supported_in k s v table) ≡ true
    → has v table ≡ true
unfolding supported_in
supported_in-has k s v [] h = ground (arith, h)
supported_in-has k s v (vent ∷ table) h =
    ground (arith, h, version_cmp-equal k s v vent.version, supported_in-has k s v table)

run_ends-within :
    (v min max : ℕ) (t : Run)
    → run_ends t ≡ some (min, max)
    → leb min v ≡ true
    → leb v max ≡ true
    → within v t ≡ true
run_ends-within v min max no_run e low high = ground (arith, e)
run_ends-within v min max (run top bottom closed) e low high = ground (arith, e, low, high)

-- The client's list.
offer_of-offered :
    (k : Config) (r : RangeResult) (min max : ℕ) (list : List ℕ)
    → ends r ≡ some (min, max)
    → offer_of k r ≡ offered list
    → list ≡ versions_down (suc max - min) max
offer_of-offered k (no_range reason) min max list e sent = ground (arith, e)
offer_of-offered k (range r) min max list e sent =
    if-eq (ltb r.max k.tls1_3) (λ small sent. ground (arith, sent))
      (λ large sent.
        let same_list : versions_down (suc r.max - r.min) r.max ≡ list = ground (arith, sent) in
        let same_min : r.min ≡ min = ground (arith, e) in
        let same_max : r.max ≡ max = ground (arith, e) in
        sym same_list ∙ ap₂ (λ a b. versions_down (suc b - a) b) same_min same_max)
      sent

check_downgrade-IsFound :
    (k : Config) (c : Handle) (v real_max : ℕ) (table : List VersionInfo)
    → ends_with tls11downgrade (at c v) ≡ false
    → ends_with tls12downgrade (at c v) ≡ false
    → IsFound v (find_method c.version table (at c v))
    → IsFound v (check_downgrade k c.version table real_max (at c v))
check_downgrade-IsFound k c v real_max table clean11 clean12 found =
    rw (clean11, clean12)
      (if-holds (IsFound v) (v == k.tls1_2 && ltb v real_max) found (
        if-holds (IsFound v) (not c.method.is_dtls && ltb v k.tls1_2 && ltb v real_max) found
          found))

-- The server puts no mark on the greatest version that both have.
unmarked :
    (k : Config) (s : Handle) (g min max : ℕ)
    → IsNumbered k
    → max ≡ k.tls1_3
    → leb min g ≡ true
    → leb g max ≡ true
    → ((v : ℕ) → leb min v ≡ true → leb v max ≡ true → supports k s v ≡ true → leb v g ≡ true)
    → check_for_downgrade k s g ≡ downgrade_none
unfolding check_for_downgrade
unmarked k s g min max numbered top low high most =
    let three = most k.tls1_3 in
    let two = most k.tls1_2 in ground (arith, numbered.tls1_3_next, top, low, high, three, two)

unfold_offer :
    (k : Config) (c : Handle) (list : List ℕ)
    → construct_supported_versions k c ≡ offered list
    → offer_of k (get_min_max_version k c false) ≡ offered list
unfolding construct_supported_versions
unfold_offer k c list sent = sent

-- The client's lowest and highest version do not depend on whether it asks for `real_max`.
ends-same :
    (k : Config) (c : Handle)
    → IsNumbered k
    → IsFlexible k c
    → ends (get_min_max_version k c false) ≡ ends (get_min_max_version k c true)
ends-same k c numbered flexible =
    get_min_max_version-lowest_run k c false numbered flexible
    ∙ sym (get_min_max_version-lowest_run k c true numbered flexible)

-- Inside its range and without a sentinel, the client accepts.
accepts :
    (k : Config) (c : Handle) (v : ℕ) (b : Bounds) (field : ℕ) (ext : Parsed)
    → IsNumbered k
    → IsFlexible k c
    → is_hrr_none c.hello_retry_request ≡ true
    → get_min_max_version k c true ≡ range b
    → leb b.min v ≡ true
    → leb v b.max ≡ true
    → has v (tls_version_table k) ≡ true
    → ends_with tls11downgrade c ≡ false
    → ends_with tls12downgrade c ≡ false
    → Proposes v field ext
    → IsFound v (choose_client_version k c field ext)
accepts k c v b field ext numbered flexible first got above below is_in clean11 clean12 proposes =
    let table = tls_version_table k in
    let inside =
      run_ends-within v b.min b.max (lowest_run k c table)
        (sym (get_min_max_version-lowest_run k c true numbered flexible) ∙ ap ends got) above
        below in
    let finds_v =
      within-finds k c v (suc k.tls1_3) table (tls_table-descends k numbered) is_in inside in
    rw (choose_client_version-inside k c v field ext b flexible first proposes got above below) (
      check_downgrade-IsFound k c v (counted c b) table clean11 clean12
        (find_method-IsFound c.version table (at c v) (tls_table-is_tagged k) finds_v))

mark_of :
    (k : Config) (s : Handle) (hello : Hello) (dgrd : Downgrade) (v : ℕ)
    → IsFlexible k s
    → is_hrr_none s.hello_retry_request ≡ true
    → (choose_server_version k s hello dgrd).error ≡ none
    → (choose_server_version k s hello dgrd).handle.version ≡ v
    → (choose_server_version k s hello dgrd).dgrd
      ≡ check_for_downgrade k (told s hello.legacy_version) v
mark_of k s hello dgrd v flexible first ok version_is =
    elim (choose_server_version-IsMarked k s hello dgrd flexible first) [
      | failed reason e ↦ absurd (ground (arith, ok, e))
      | marked e ↦ e ∙ ap (check_for_downgrade k (told s hello.legacy_version)) version_is
    ]

-- The server and the client have agreed on a version.
pub record IsAgreed (v : ℕ) (choice : Choice) (answer : Verdict × Handle) : Type 0 where
  pub server_succeeds : choice.error ≡ none
  pub server_version : choice.handle.version ≡ v
  pub server_method : choice.handle.method.version ≡ v
  pub unmarked_random : choice.dgrd ≡ downgrade_none
  pub client_found : IsFound v answer

-- A client and a server of the same build, with flexible methods of TLS and at the first ClientHello.
-- The client's highest version is TLSv1.3, so that it sends a list of versions; its legacy version is
-- above SSLv3. If the server supports a version of the list, then both end up with the greatest such
-- version and its method: the server succeeds and puts no sentinel into its random number, and the
-- client, told of this version in the one way or the other, accepts it, if the random number does not
-- end with a sentinel by chance. The numbers of the versions are those of TLS.
pub honest-IsAgreed :
    (k : Config) (c s : Handle) (list : List ℕ) (b : Bounds) (legacy : ℕ) (dgrd : Downgrade)
    → (field : ℕ) (ext : Parsed) → IsNumbered k
    → IsFlexible k c
    → IsFlexible k s
    → is_hrr_none c.hello_retry_request ≡ true
    → is_hrr_none s.hello_retry_request ≡ true
    → get_min_max_version k c true ≡ range b
    → b.max ≡ k.tls1_3
    → construct_supported_versions k c ≡ offered list
    → k.ssl3 < legacy
    → 0 < greatest (supports k (told s legacy)) list
    → Proposes (greatest (supports k (told s legacy)) list) field ext
    → ends_with tls11downgrade c ≡ false
    → ends_with tls12downgrade c ≡ false
    → IsAgreed
        (greatest (supports k (told s legacy)) list)
        (choose_server_version k s (listed legacy list) dgrd)
        (choose_client_version k c field ext)
honest-IsAgreed k c s list b legacy dgrd field ext numbered flex_c flex_s first_c first_s got top
      sent high common proposes clean11 clean12 =
    let s' = told s legacy in
    let p = supports k s' in
    let g = greatest p list in
    let n = suc b.max - b.min in
    let table = tls_version_table k in
    let list_is =
      offer_of-offered k (get_min_max_version k c false) b.min b.max list
        (ends-same k c numbered flex_c ∙ ap ends got) (unfold_offer k c list sent) in
    let held = greatest-holds p list in
    let bounds : (g == 0 || (leb g b.max && ltb b.max (g + n))) ≡ true =
      subst
        (λ l.
          (greatest p l == 0 || (leb (greatest p l) b.max && ltb b.max (greatest p l + n))) ≡ true)
        (sym list_is) (greatest-down p n b.max) in
    let most : (v : ℕ) → leb b.min v ≡ true → leb v b.max ≡ true → p v ≡ true → leb v g ≡ true =
      λ v low high h.
        subst (λ l. leb v (greatest p l) ≡ true) (sym list_is)
          (down-greatest p n b.max v high (ground (arith, low, high)) h) in
    let above : leb b.min g ≡ true = ground (arith, bounds, common) in
    let below : leb g b.max ≡ true = ground (arith, bounds, common) in
    let p_g : p g ≡ true = ground (arith, held, common) in
    let c_is = choose_server_version-greatest k s legacy list dgrd flex_s first_s high in
    let version_is : (choose_server_version k s (listed legacy list) dgrd).handle.version ≡ g =
      ground (arith, c_is.version_is, common) in
    record {
      server_succeeds = ground (arith, c_is.outcome, common);
      server_version = version_is;
      server_method = ground (arith, c_is.method_is, common);
      unmarked_random =
          mark_of k s (listed legacy list) dgrd g flex_s first_s
            (ground (arith, c_is.outcome, common)) version_is
          ∙ unmarked k s' g b.min b.max numbered top above below most;
      client_found =
          accepts k c g b field ext numbered flex_c first_c got above below
            (supported_in-has k s' g table (
              ap is_supported (
                sym (
                  version_supported-tls k s' g
                    (record { any = flex_s.any; not_dtls = flex_s.not_dtls })))
              ∙ p_g))
            clean11 clean12 proposes;
    }
