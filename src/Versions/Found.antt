-- ===== src/Versions/Found.antt =====
-- The versions between the ends of the client's range, for which the client has a method.
use openssl_3_0_bee2evp.Prelude.{
  ℕ, ◌≡◌, refl, inl, inr, Bool, true, false, ◌&&◌, ◌||◌, Option, none, some, List, [], ◌∷◌, ltb,
  leb, ◌==◌, Bool-cases, arith,
}
use openssl_3_0_bee2evp.Versions.{Config, Method, VersionInfo, Handle}
use openssl_3_0_bee2evp.Versions.Client.{Verdict, accepted, find_method}
use openssl_3_0_bee2evp.Versions.Tables.{is_tagged}
use openssl_3_0_bee2evp.Versions.Contiguous.{
  Run, no_run, run, raise, lowest_run, is_on, descends, below, lowest_run-below,
}

-- The version is in the table, and with a client method.
abbrev pub has : ℕ → List VersionInfo → Bool
has v [] = false
has v (vent ∷ table) = v == vent.version || has v table

abbrev client_method : VersionInfo → Bool
client_method vent = elim (vent.cmeth) [ none ↦ false | some m ↦ true ]

abbrev pub finds : ℕ → List VersionInfo → Bool
finds v [] = false
finds v (vent ∷ table) = (v == vent.version && client_method vent) || finds v table

abbrev pub within : ℕ → Run → Bool
within v no_run = false
within v (run max min closed) = leb min v && leb v max

has-descends :
    (v bound : ℕ) (table : List VersionInfo)
    → descends bound table ≡ true
    → has v table ≡ true
    → ltb v bound ≡ true
has-descends v bound [] down is_in = ground (arith, is_in)
has-descends v bound (vent ∷ table) down is_in =
    ground (arith, down, is_in, has-descends v vent.version table)

-- A run that nothing closes reaches the top of the table.
abbrev tops : ℕ → Run → Bool
tops v (run max min false) = leb v max
tops v _ = true

has-tops :
    (k : Config) (s : Handle) (v bound : ℕ) (table : List VersionInfo)
    → descends bound table ≡ true
    → has v table ≡ true
    → tops v (lowest_run k s table) ≡ true
unfolding lowest_run
has-tops k s v bound [] down is_in = refl
has-tops k s v bound (vent ∷ table) down is_in =
    go (lowest_run k s table) (is_on k s vent)
      (has-descends v vent.version table (ground (arith, down)))
  where
    go :
        (t : Run) (on : Bool)
        → (has v table ≡ true → ltb v vent.version ≡ true)
        → tops v (raise on vent.version t) ≡ true
    go no_run true lower = ground (arith, is_in, lower)
    go no_run false lower = refl
    go (run max min true) on lower = refl
    go (run max min false) true lower = ground (arith, is_in, lower)
    go (run max min false) false lower = refl

pub within-finds :
    (k : Config) (s : Handle) (v bound : ℕ) (table : List VersionInfo)
    → descends bound table ≡ true
    → has v table ≡ true
    → within v (lowest_run k s table) ≡ true
    → finds v table ≡ true
unfolding lowest_run
within-finds k s v bound [] down is_in inside = is_in
within-finds k s v bound (vent ∷ table) down is_in inside =
    go (lowest_run k s table) (is_on k s vent) (ground arith)
      (lowest_run-below k s vent.version table (ground (arith, down)))
      (has-tops k s v vent.version table (ground (arith, down)))
      (within-finds k s v vent.version table (ground (arith, down))) inside
  where
    go :
        (t : Run) (on : Bool)
        → (on ≡ true → client_method vent ≡ true)
        → below vent.version t ≡ true
        → (has v table ≡ true → tops v t ≡ true)
        → (has v table ≡ true → within v t ≡ true → finds v table ≡ true)
        → within v (raise on vent.version t) ≡ true
        → finds v (vent ∷ table) ≡ true
    go no_run on client low top ih inside = ground (arith, is_in, inside, client)
    go (run max min true) on client low top ih inside = ground (arith, is_in, inside, low, ih)
    go (run max min false) true client low top ih inside =
        ground (arith, is_in, inside, client, low, top, ih)
    go (run max min false) false client low top ih inside = ground (arith, is_in, inside, low, ih)

-- The loop that looks for the method finds it.
pub record IsFound (v : ℕ) (r : Verdict × Handle) : Type 0 where
  pub took : r.0 ≡ accepted
  pub version_is : r.1.version ≡ v
  pub method_is : r.1.method.version ≡ v

pub find_method-IsFound :
    (origv : ℕ) (table : List VersionInfo) (s : Handle)
    → is_tagged table ≡ true
    → finds s.version table ≡ true
    → IsFound s.version (find_method origv table s)
unfolding find_method
find_method-IsFound origv [] s tag h = absurd (ground (arith, h))
find_method-IsFound origv (vent ∷ table) s tag h =
    go vent.cmeth refl (find_method-IsFound origv table s (ground (arith, tag)))
  where
    go :
        (c : Option Method)
        → vent.cmeth ≡ c
        → (finds s.version table ≡ true → IsFound s.version (find_method origv table s))
        → IsFound s.version (find_method origv (vent ∷ table) s)
    go none e ih = rw e (ih (ground (arith, h, e)))
    go (some m) e ih = elim (Bool-cases (s.version == vent.version)) [
      | inl here ↦
          rw (e, here)
            (record { took = refl; version_is = refl; method_is = ground (arith, tag, e, here) })
      | inr further ↦ rw (e, further) (ih (ground (arith, h, further)))
    ]
