-- ===== src/Sessions/Tests/Stored.antt =====
-- A context whose list and table hold two sessions, and a third that is added.
use openssl_3_0_bee2evp.Prelude.{
  ℕ, ◌≡◌, refl, subst, sym, Bool, true, false, Option, none, some, List, [], ◌∷◌, ◌==◌,
  if◌then◌else◌, arith, Bool-cases, inl, inr,
}
use openssl_3_0_bee2evp.Prelude.Int.{pos}
use openssl_3_0_bee2evp.Sessions.{
  head_addr, tail_addr, null, session, Cache, timeoutcmp, write, list_add, list_remove, add_between,
  calculate_timeout, sess_timedout,
}
use openssl_3_0_bee2evp.Sessions.Linked.{IsList}
use openssl_3_0_bee2evp.Sessions.Place.{IsOrdered}
use openssl_3_0_bee2evp.Sessions.Tests.{at_time}
use openssl_3_0_bee2evp.Sessions.Context.{
  same_key, make_room, set_time, set_timeout, Key, key, Context, add_session, remove_session,
  flush_sessions,
}
use openssl_3_0_bee2evp.Sessions.Context.Index.{listed, same_key-eq}
use openssl_3_0_bee2evp.Sessions.Context.Held.{IsCache}
use openssl_3_0_bee2evp.Sessions.Context.Adding.{IsEntered}
use openssl_3_0_bee2evp.Sessions.Context.Entered.{survivors, add_session-IsEntered}
use openssl_3_0_bee2evp.Sessions.Context.Removal.{IsWithout, remove_session-IsWithout}
use openssl_3_0_bee2evp.Sessions.Context.Flush.{IsFlushed, flush_sessions-IsFlushed}
use openssl_3_0_bee2evp.Sessions.Context.Times.{IsMoved, set_time-IsMoved}
use openssl_3_0_bee2evp.Sessions.Context.NoMemory.{IsStranded, add_session-IsStranded}
use openssl_3_0_bee2evp.Sessions.Tests.Assoc.{Items, table, table-IsTable}

-- The session `a` is named `a`, but the first two are not the third.
abbrev two_named : Cache
two_named = record {
  session_cache_head = session 1;
  session_cache_tail = session 0;
  heap = λ a.
      if a == 1
      then record (at_time head_addr (session 0) 20) { owner = true; session_id = 1 ∷ [] }
      else if a == 0
      then record (at_time (session 1) tail_addr 10) { owner = true; session_id = 0 ∷ [] }
      else record (at_time null null 15) { session_id = 2 ∷ [] };
}

abbrev name : ℕ → Key
name n = record { ssl_version = 771; session_id = n ∷ [] }

abbrev context : Context Items
context = record {
  cache = two_named;
  sessions = (name 1, 1) ∷ (name 0, 0) ∷ [];
  session_cache_size = 2;
  update_time = true;
}

abbrev members : List ℕ
members = 1 ∷ 0 ∷ []

two_named-IsList : IsList two_named members
two_named-IsList = record {
  chain = ((refl, refl), ((refl, refl), ((refl, refl), tt)));
  repeat_free = (refl, (refl, (refl, (refl, tt))));
  head_is = refl;
  tail_is = refl;
  owned = λ a. ground arith;
  unlisted = λ a new. (ground (arith, new), ground (arith, new));
}

ordered : IsOrdered two_named members
unfolding timeoutcmp
ordered = ((refl, tt), (tt, tt))

module _ (memory : Bool) where
  holds :
      (a : ℕ)
      → listed a members ≡ true
      → (table memory).retrieve context.sessions (key (two_named.heap a)) ≡ some a
  holds a here = ground (arith, here)

  only :
      (k : Key) (a : ℕ)
      → (table memory).retrieve context.sessions k ≡ some a
      → (listed a members ≡ true) × (key (two_named.heap a) ≡ k)
  only k a e = elim (Bool-cases (same_key k (name 1))) [
    | inl same ↦
        let one : a ≡ 1 = ground (arith, e, same) in
        subst (λ a. (listed a members ≡ true) × (key (two_named.heap a) ≡ k)) (sym one)
          (refl, sym (same_key-eq k (name 1) same))
    | inr other ↦
        let same : same_key k (name 0) ≡ true = ground (arith, e, other) in
        let zero_is : a ≡ 0 = ground (arith, e, other) in
        subst (λ a. (listed a members ≡ true) × (key (two_named.heap a) ≡ k)) (sym zero_is)
          (refl, sym (same_key-eq k (name 0) same))
  ]

  context-IsCache : IsCache (table memory) context members
  context-IsCache = record {
    is_list = two_named-IsList;
    ordered = ordered;
    indexed = record {
      holds = holds;
      only = only;
      counted = refl;
      named = λ a here. ground (arith, here);
    };
  }

add_session-IsEntered_example :
    (g' : Context Items) × IsEntered
      (table true)
      (add_session (table true) true 3 (pos 15) 2 context)
      context
      (pos 15)
      2
      (survivors 2 2 none members)
      true
      g'
add_session-IsEntered_example =
    add_session-IsEntered (table true) (table-IsTable true) 3 (pos 15) 2 context members
      (context-IsCache true) refl refl (omega arith)

add_session-IsStranded_example :
    (g' : Context Items) × IsStranded (table false) 2 (pos 15) 2 context members g'
add_session-IsStranded_example =
    add_session-IsStranded (table false) (table-IsTable false) 2 (pos 15) 2 context members
      (context-IsCache false) refl refl (omega arith)

remove_session-IsWithout_example :
    (g' : Context Items) × IsWithout (table true) context members 0 (some 0) g'
remove_session-IsWithout_example =
    remove_session-IsWithout (table true) (table-IsTable true) context members 0
      (context-IsCache true)

flush_sessions-IsFlushed_example :
    (g' : Context Items) × IsFlushed (table true) (pos 15) 3 context members g'
flush_sessions-IsFlushed_example =
    flush_sessions-IsFlushed (table true) (pos 15) (table-IsTable true) 3 context members
      (context-IsCache true) (omega arith)

set_time-IsMoved_example :
    ((c : Cache) × IsMoved
        (table true)
        (set_time 2 0 (pos 30) two_named)
        context
        members
        0
        (λ s. record s { time = pos 30 })
        c)
    × ((c : Cache) × IsMoved
          (table true)
          (set_timeout 2 0 (pos 30) two_named)
          context
          members
          0
          (λ s. record s { timeout = pos 30 })
          c)
set_time-IsMoved_example =
    set_time-IsMoved (table true) 2 0 (pos 30) context members (context-IsCache true) (omega arith)

-- The cache, of size 2, has one session after the third is added.
abbrev items_after : Option (Context Items × Bool) → Items
items_after none = []
items_after (some r) = r.0.sessions

one_is_left : items_after (add_session (table true) true 3 (pos 15) 2 context) ≡ (name 2, 2) ∷ []
unfolding add_session make_room remove_session list_remove list_add add_between timeoutcmp write
    calculate_timeout
one_is_left = refl

-- At the time 15, the session that times out at 10 is removed.
abbrev items_of : Option (Context Items) → Items
items_of none = []
items_of (some g) = g.sessions

one_expires : items_of (flush_sessions (table true) 3 (pos 15) context) ≡ (name 1, 1) ∷ []
unfolding flush_sessions sess_timedout list_remove write
one_expires = refl
