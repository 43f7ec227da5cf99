-- ===== src/Sessions/Context/Times.antt =====
-- `SSL_SESSION_set_time` and `SSL_SESSION_set_timeout` of ssl/ssl_sess.c move a session in the list.
use openssl_3_0_bee2evp.Prelude.{
  ℕ, ◌≤◌, ◌≡◌, ◌∙◌, refl, subst, true, false, Option, some, List, ◌∷◌, ◌==◌, length, arith,
  Bool-cases, inl, inr, if◌then◌else◌,
}
use openssl_3_0_bee2evp.Prelude.Int.{ℤ, pos, ltb_ℤ}
use openssl_3_0_bee2evp.Sessions.{Session, Cache, write, calculate_timeout, list_add}
use openssl_3_0_bee2evp.Sessions.Place.{place}
use openssl_3_0_bee2evp.Sessions.Remove.{delete, has-delete-same}
use openssl_3_0_bee2evp.Sessions.Context.{key, Table, Context, set_member, set_time, set_timeout}
use openssl_3_0_bee2evp.Sessions.Context.Index.{listed, length-delete, positive}
use openssl_3_0_bee2evp.Sessions.Context.Held.{
  IsCache, IsList-same, IsIndexed-same, write-SameLinks, write-keys, outside-IsOrdered,
  delete-IsOrdered,
}
use openssl_3_0_bee2evp.Sessions.Context.Core.{SameCore}
use openssl_3_0_bee2evp.Sessions.Context.Insert.{listed-IsCache}

-- The list after a change of the timeout of a session.
abbrev pub moved : Cache → ℕ → List ℕ → List ℕ
moved c x xs = if listed x xs then place c x (delete x xs) else xs

-- What a change of a session leaves.
pub record IsMoved {H : Type 0} (t : Table H) (r : Option Cache) (g : Context H) (xs : List ℕ)
    (x : ℕ) (f : Session → Session) (c : Cache) : Type 0 where
  pub returns : r ≡ some c
  pub cached : IsCache t (record g { cache = c }) (moved c x xs)
  pub same_core : SameCore (write x (λ s. calculate_timeout (f s)) g.cache) c

module _ {H : Type 0} (t : Table H) (n x : ℕ) (f : Session → Session)
    (links : (s : Session)
      → ((calculate_timeout (f s)).next ≡ s.next)
        × ((calculate_timeout (f s)).prev ≡ s.prev)
        × ((calculate_timeout (f s)).owner ≡ s.owner))
    (keys : (s : Session) → key (calculate_timeout (f s)) ≡ key s) (g : Context H) (xs : List ℕ)
    (held : IsCache t g xs) where
  abbrev changed : Cache
  changed = write x (λ s. calculate_timeout (f s)) g.cache

  owner_is : (g.cache.heap x).owner ≡ listed x xs
  owner_is = held.is_list.owned x

  same_members : listed x xs ≡ true → (a : ℕ) → listed a (x ∷ delete x xs) ≡ listed a xs
  same_members here a = elim (Bool-cases (a == x)) [
    | inl one ↦
        let same : x ≡ a = ground (arith, one) in
        let there : listed a xs ≡ true = subst (λ a. listed a xs ≡ true) same here in
        ground (arith, one, there)
    | inr other ↦ ground (arith, other, has-delete-same x a xs (held.is_list.repeat_free.1))
  ]

  absent_after : listed x (delete x xs) ≡ false
  absent_after = ground (arith, has-delete-same x x xs (held.is_list.repeat_free.1))

  moves : (g.cache.heap x).owner ≡ true → set_member n x f g.cache ≡ list_add n x changed
  unfolding set_member
  moves e = rw e refl

  stands : (g.cache.heap x).owner ≡ false → set_member n x f g.cache ≡ some changed
  unfolding set_member
  stands e = rw e refl

  set_member-inside :
      listed x xs ≡ true
      → length xs ≤ n
      → (c : Cache) × IsMoved t (set_member n x f g.cache) g xs x f c
  set_member-inside here enough =
      let ws = delete x xs in
      let size : length (x ∷ ws) ≡ length xs =
        omega (arith, length-delete x xs here, positive x xs here) in
      let (c, adds, cached, same) =
        listed-IsCache t n x (record g { cache = changed }) xs
          (IsList-same g.cache changed
            (write-SameLinks x (λ s. calculate_timeout (f s)) g.cache links) xs held.is_list)
          (outside-IsOrdered g.cache x (λ s. calculate_timeout (f s)) ws absent_after
            (delete-IsOrdered g.cache x xs held.ordered))
          (IsIndexed-same t g.cache changed g.sessions xs (x ∷ ws)
            (write-keys x (λ s. calculate_timeout (f s)) g.cache keys) (same_members here) size
            held.indexed)
          enough in
      (
        c,
        record {
          returns = moves (owner_is ∙ here) ∙ adds;
          cached = rw here cached;
          same_core = same;
        },
      )

  set_member-outside :
      listed x xs ≡ false → (c : Cache) × IsMoved t (set_member n x f g.cache) g xs x f c
  set_member-outside new = (
    changed,
    record {
      returns = stands (owner_is ∙ new);
      cached = rw new (record {
        is_list =
            IsList-same g.cache changed
              (write-SameLinks x (λ s. calculate_timeout (f s)) g.cache links) xs held.is_list;
        ordered = outside-IsOrdered g.cache x (λ s. calculate_timeout (f s)) xs new held.ordered;
        indexed =
            IsIndexed-same t g.cache changed g.sessions xs xs
              (write-keys x (λ s. calculate_timeout (f s)) g.cache keys) (λ a. refl) refl
              held.indexed;
      });
      same_core = record { same = λ a. refl };
    },
  )

  set_member-IsMoved : length xs ≤ n → (c : Cache) × IsMoved t (set_member n x f g.cache) g xs x f c
  set_member-IsMoved enough = elim (Bool-cases (listed x xs)) [
    | inl here ↦ set_member-inside here enough
    | inr new ↦ set_member-outside new
  ]

calculated_links :
    (s : Session)
    → ((calculate_timeout s).next ≡ s.next)
      × ((calculate_timeout s).prev ≡ s.prev)
      × ((calculate_timeout s).owner ≡ s.owner)
unfolding calculate_timeout
calculated_links s = (refl, refl, refl)

calculated_key : (s : Session) → key (calculate_timeout s) ≡ key s
unfolding calculate_timeout
calculated_key s = refl

-- `SSL_SESSION_set_time`, on a cache whose list and table agree, sets the time of a session, calculates
-- its timeout and, if the session is in the list, moves it to its place in the order, following no bad
-- pointer. So does `SSL_SESSION_set_timeout` if the argument is not negative, and otherwise it changes
-- nothing. List and table agree afterwards, and keys and the other sessions' timeouts are what they were.
pub set_time-IsMoved :
    {H : Type 0} (t : Table H) (n x : ℕ) (value : ℤ) (g : Context H) (xs : List ℕ)
    → IsCache t g xs
    → length xs ≤ n
    → ((c : Cache) × IsMoved t
          (set_time n x value g.cache)
          g
          xs
          x
          (λ s. record s { time = value })
          c)
      × (if ltb_ℤ value (pos 0)
          then set_timeout n x value g.cache ≡ some g.cache
          else (c : Cache) × IsMoved t
              (set_timeout n x value g.cache)
              g
              xs
              x
              (λ s. record s { timeout = value })
              c)
unfolding set_time set_timeout
set_time-IsMoved t n x value g xs held enough = (
  set_member-IsMoved t n x (λ s. record s { time = value })
      (λ s. calculated_links (record s { time = value }))
      (λ s. calculated_key (record s { time = value })) g xs held enough,
  elim (Bool-cases (ltb_ℤ value (pos 0))) [
    | inl negative ↦ rw negative refl
    | inr fine ↦ rw fine (
        set_member-IsMoved t n x (λ s. record s { timeout = value })
          (λ s. calculated_links (record s { timeout = value }))
          (λ s. calculated_key (record s { timeout = value })) g xs held enough)
  ],
)
