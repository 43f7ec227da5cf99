-- ===== src/Versions/Sentinel.antt =====
-- The client's check of the sentinel, against the server that sends it.
use openssl_3_0_bee2evp.Prelude.{
  ◌∙◌, sym, ap, ℕ, ◌<◌, ◌≤◌, ◌≡◌, refl, inl, inr, Bool, true, false, not, Option, none, some, List,
  [], ◌∷◌, ltb, leb, ◌==◌, if◌then◌else◌, Bool-cases, arith, length,
}
use openssl_3_0_bee2evp.Ssl.{is_hrr_none}
use openssl_3_0_bee2evp.Versions.{
  Config, VersionInfo, Handle, method_error, version_cmp, tls_version_table, IsNumbered,
  inappropriate_fallback,
}
use openssl_3_0_bee2evp.Versions.Server.{
  Downgrade, downgrade_to_1_1, downgrade_to_1_2, Hello, choose_server_version, check_for_downgrade,
}
use openssl_3_0_bee2evp.Versions.Range.{
  get_min_max_version, range, Bounds, range_loop, range_step, Range, initial_range, range_result,
}
use openssl_3_0_bee2evp.Versions.Client.{
  Parsed, not_present, selected, fatal_error, illegal_parameter, check_downgrade, check_range,
  choose_parsed, choose_client_version,
}
use openssl_3_0_bee2evp.Versions.Random.{
  tls11downgrade, tls12downgrade, put_sentinel, fill_hello_random,
}
use openssl_3_0_bee2evp.Versions.Tables.{IsFlexible}
use openssl_3_0_bee2evp.Versions.Marks.{IsMarked, failed, marked, choose_server_version-IsMarked}
use openssl_3_0_bee2evp.Versions.RealMax.{get_min_max_version-real_max}
use openssl_3_0_bee2evp.Versions.Best.{supports, told}
use openssl_3_0_bee2evp.Versions.Contiguous.{get_min_max_version-tls}
use openssl_3_0_bee2evp.Versions.Filled.{Filled, fill_hello_random-Filled, end_with-ends_with}

-- The range of versions does not depend on the version that the client has at the moment.
abbrev pub at : Handle → ℕ → Handle
at c v = record c { version = v }

range_loop-version :
    (k : Config) (c : Handle) (v : ℕ) (wanted : Bool) (table : List VersionInfo) (r : Range)
    → range_loop k (at c v) wanted table r ≡ range_loop k c wanted table r
unfolding range_loop method_error version_cmp
range_loop-version k c v wanted [] r = refl
range_loop-version k c v wanted (vent ∷ table) r =
    range_loop-version k c v wanted table (range_step k c wanted vent r)

pub get_min_max_version-version :
    (k : Config) (c : Handle) (v : ℕ) (wanted : Bool)
    → IsFlexible k c
    → get_min_max_version k (at c v) wanted ≡ get_min_max_version k c wanted
get_min_max_version-version k c v wanted flexible =
    get_min_max_version-tls k (at c v) wanted
      (record { any = flexible.any; not_dtls = flexible.not_dtls })
    ∙ ap range_result (range_loop-version k c v wanted (tls_version_table k) initial_range)
    ∙ sym (get_min_max_version-tls k c wanted flexible)

-- A server proposes a version in the ServerHello's own field, or in the extension.
pub data Proposes (v : ℕ) : ℕ → Parsed → Type 0 where
  by_hello : Proposes v v not_present
  by_extension : (legacy : ℕ) → Proposes v legacy (selected v)

choose_client_version-proposed :
    (k : Config) (c : Handle) (v legacy : ℕ) (ext : Parsed)
    → Proposes v legacy ext
    → choose_client_version k c legacy ext ≡ choose_parsed k c.version (at c v)
unfolding choose_client_version
choose_client_version-proposed k c v _ _ by_hello = refl
choose_client_version-proposed k c v _ _ (by_extension legacy) = refl

choose_parsed-flexible :
    (k : Config) (c : Handle) (v : ℕ)
    → IsFlexible k c
    → is_hrr_none c.hello_retry_request ≡ true
    → choose_parsed k c.version (at c v)
      ≡ check_range k c.version (tls_version_table k) (get_min_max_version k (at c v) true) (at c v)
choose_parsed-flexible k c v flexible first = ground (arith, flexible.any, first)

-- The highest version that counts for the check.
abbrev pub counted : Handle → Bounds → ℕ
counted c b = if not c.send_fallback_scsv then b.max else b.real_max

check_range-inside :
    (k : Config) (c : Handle) (v : ℕ) (b : Bounds) (table : List VersionInfo)
    → c.method.is_dtls ≡ false
    → leb b.min v ≡ true
    → leb v b.max ≡ true
    → check_range k c.version table (range b) (at c v)
      ≡ check_downgrade k c.version table (counted c b) (at c v)
check_range-inside k c v b table tls above below = ground (arith, tls, above, below)

-- Within its range, the client goes on to the check of the sentinel.
pub choose_client_version-inside :
    (k : Config) (c : Handle) (v legacy : ℕ) (ext : Parsed) (b : Bounds)
    → IsFlexible k c
    → is_hrr_none c.hello_retry_request ≡ true
    → Proposes v legacy ext
    → get_min_max_version k c true ≡ range b
    → leb b.min v ≡ true
    → leb v b.max ≡ true
    → choose_client_version k c legacy ext
      ≡ check_downgrade k c.version (tls_version_table k) (counted c b) (at c v)
choose_client_version-inside k c v legacy ext b flexible first proposes got above below =
    let table = tls_version_table k in
    choose_client_version-proposed k c v legacy ext proposes
    ∙ choose_parsed-flexible k c v flexible first
    ∙ ap (λ r. check_range k c.version table r (at c v))
        (get_min_max_version-version k c v true flexible ∙ got)
    ∙ check_range-inside k c v b table flexible.not_dtls above below

-- The mark on a version below TLSv1.3, on a server that has TLSv1.3 and TLSv1.2.
marks_below :
    (k : Config) (s : Handle) (v : ℕ)
    → IsNumbered k
    → s.method.is_dtls ≡ false
    → v < k.tls1_3
    → supports k s k.tls1_3 ≡ true
    → supports k s k.tls1_2 ≡ true
    → check_for_downgrade k s v ≡ (if v == k.tls1_2 then downgrade_to_1_2 else downgrade_to_1_1)
unfolding check_for_downgrade
marks_below k s v numbered tls low three two =
    ground (arith, numbered.tls1_3_next, tls, low, three, two)

refuses_marked :
    (k : Config) (c : Handle) (v real_max : ℕ) (table : List VersionInfo) (random : List ℕ)
    → IsNumbered k
    → c.method.is_dtls ≡ false
    → v < k.tls1_3
    → k.tls1_3 ≤ real_max
    → 8 ≤ length random
    → c.server_random
      ≡ put_sentinel (if v == k.tls1_2 then downgrade_to_1_2 else downgrade_to_1_1) random
    → check_downgrade k c.version table real_max (at c v)
      ≡ (fatal_error illegal_parameter inappropriate_fallback, c)
refuses_marked k c v real_max table random numbered tls low high long e =
    let random_is : (b : Bool)
        → (v == k.tls1_2) ≡ b
        → c.server_random ≡ put_sentinel (if b then downgrade_to_1_2 else downgrade_to_1_1) random =
      λ b h.
        e ∙ ap (λ b. put_sentinel (if b then downgrade_to_1_2 else downgrade_to_1_1) random) h in
    let higher : ltb v real_max ≡ true = ground (arith, low, high) in
    elim (Bool-cases (v == k.tls1_2)) [
      | inl here ↦
          rw (here, higher, end_with-ends_with tls12downgrade random c long (random_is true here))
            refl
      | inr other ↦
          let lower : ltb v k.tls1_2 ≡ true = ground (arith, numbered.tls1_3_next, low, other) in
          rw
            (
              other,
              tls,
              lower,
              higher,
              end_with-ends_with tls11downgrade random c long (random_is false other),
            )
            refl
    ]

-- A client and a server with flexible methods of TLS, both at the first ClientHello. The server has
-- TLSv1.3 and TLSv1.2 enabled, but because of the ClientHello that reaches it, whatever it is, it
-- chooses a lower version than TLSv1.3, and `ssl_fill_hello_random` makes its random number
-- accordingly. Then a client that offers TLSv1.3 as its highest version and has the chosen version in
-- its range refuses that version with an illegal_parameter alert and keeps its state. The numbers of
-- the versions are those of TLS, and the source of random bytes returns as many as it is asked for.
pub tampering_refused :
    (k : Config) (c s : Handle) (hello : Hello) (dgrd : Downgrade)
    → (rand : ℕ → Option (List ℕ)) (time : List ℕ) (send_time : Bool) (len : ℕ)
    → (legacy : ℕ) (ext : Parsed) (b : Bounds) → IsNumbered k
    → IsFlexible k c
    → IsFlexible k s
    → is_hrr_none c.hello_retry_request ≡ true
    → is_hrr_none s.hello_retry_request ≡ true
    → supports k (told s hello.legacy_version) k.tls1_3 ≡ true
    → supports k (told s hello.legacy_version) k.tls1_2 ≡ true
    → (choose_server_version k s hello dgrd).error ≡ none
    → (choose_server_version k s hello dgrd).handle.version < k.tls1_3
    → length time ≡ 4
    → ((n : ℕ) (bytes : List ℕ) → rand n ≡ some bytes → length bytes ≡ n)
    → fill_hello_random rand time send_time len (choose_server_version k s hello dgrd).dgrd
      ≡ some c.server_random
    → Proposes (choose_server_version k s hello dgrd).handle.version legacy ext
    → get_min_max_version k c true ≡ range b
    → b.max ≡ k.tls1_3
    → b.min ≤ (choose_server_version k s hello dgrd).handle.version
    → choose_client_version k c legacy ext
      ≡ (fatal_error illegal_parameter inappropriate_fallback, c)
tampering_refused k c s hello dgrd rand time send_time len legacy ext b numbered flex_c flex_s
      first_c first_s three two ok low clock promise filled proposes got top above =
    go (choose_server_version-IsMarked k s hello dgrd flex_s first_s)
      (fill_hello_random-Filled rand time send_time len _ _ clock promise filled)
  where
    go :
        IsMarked k (told s hello.legacy_version) (choose_server_version k s hello dgrd)
        → Filled (choose_server_version k s hello dgrd).dgrd c.server_random
        → choose_client_version k c legacy ext
          ≡ (fatal_error illegal_parameter inappropriate_fallback, c)
    go (failed reason e) random = absurd (ground (arith, ok, e))
    go (marked e) random =
        choose_client_version-inside k c _ legacy ext b flex_c first_c proposes got
          (ground (arith, above)) (ground (arith, low, top))
        ∙ refuses_marked k c _ (counted c b) (tls_version_table k) random.bytes numbered
            flex_c.not_dtls low
            (ground (arith, top, get_min_max_version-real_max k c b numbered flex_c got))
            random.long
            (random.put
              ∙ ap (λ d. put_sentinel d random.bytes)
                  (e
                    ∙ marks_below k (told s hello.legacy_version) _ numbered flex_s.not_dtls low
                        three two))
