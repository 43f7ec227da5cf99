-- ===== src/Sessions/Tests.antt =====
-- A cache with two sessions, and a third that comes between them.
mod Assoc
mod Stored
use openssl_3_0_bee2evp.Prelude.{
  ℕ, ◌≡◌, refl, true, false, Option, none, some, List, [], ◌∷◌, ◌==◌, if◌then◌else◌, arith,
}
use openssl_3_0_bee2evp.Prelude.Int.{pos, negsuc, ltb_ℤ}
use openssl_3_0_bee2evp.Sessions.{
  Link, null, head_addr, tail_addr, session, Session, Cache, calculate_timeout, timeoutcmp,
  sess_timedout, list_remove, list_add, add_between, write,
}
use openssl_3_0_bee2evp.Sessions.Timeouts.{IsInRange, compare_ℤ, exact, timeoutcmp-exact}
use openssl_3_0_bee2evp.Sessions.Linked.{IsList, SameRest}
use openssl_3_0_bee2evp.Sessions.Remove.{delete, list_remove-IsList}
use openssl_3_0_bee2evp.Sessions.Place.{IsOrdered}
use openssl_3_0_bee2evp.Sessions.Add.{IsAdded, list_add-IsAdded}

-- A session that times out at a time.
abbrev pub at_time : Link → Link → ℕ → Session
at_time p q t = record {
  prev = p;
  next = q;
  timeout = pos 0;
  time = pos t;
  calc_timeout = pos t;
  timeout_ovf = false;
  owner = false;
  ssl_version = 771;
  session_id = 1 ∷ [];
  not_resumable = false;
  references = 1;
}

abbrev two_sessions : Cache
two_sessions = record {
  session_cache_head = session 1;
  session_cache_tail = session 0;
  heap = λ a.
      if a == 1
      then record (at_time head_addr (session 0) 20) { owner = true }
      else if a == 0
      then record (at_time (session 1) tail_addr 10) { owner = true }
      else at_time null null 15;
}

abbrev members : List ℕ
members = 1 ∷ 0 ∷ []

two_sessions-IsList : IsList two_sessions members
two_sessions-IsList = record {
  chain = ((refl, refl), ((refl, refl), ((refl, refl), tt)));
  repeat_free = (refl, (refl, (refl, (refl, tt))));
  head_is = refl;
  tail_is = refl;
  owned = λ a. ground arith;
  unlisted = λ a new. (ground (arith, new), ground (arith, new));
}

abbrev next_in : Option Cache → ℕ → Link
next_in none a = null
next_in (some c) a = (c.heap a).next

-- The third session goes between the two.
lands_after_first : next_in (list_add 2 2 two_sessions) 1 ≡ session 2
unfolding list_add list_remove add_between timeoutcmp write
lands_after_first = refl

lands_before_second : next_in (list_add 2 2 two_sessions) 2 ≡ session 0
unfolding list_add list_remove add_between timeoutcmp write
lands_before_second = refl

others-IsOrdered : IsOrdered two_sessions (delete 2 members)
unfolding timeoutcmp
others-IsOrdered = ((refl, tt), (tt, tt))

list_add-IsAdded_example : (c' : Cache) × IsAdded 2 2 two_sessions members c'
list_add-IsAdded_example =
    list_add-IsAdded 2 2 two_sessions members two_sessions-IsList others-IsOrdered (omega arith)

list_remove-IsList_example :
    (c' : Cache) × (list_remove 0 two_sessions ≡ some c')
    × IsList c' (delete 0 members)
    × SameRest two_sessions c'
list_remove-IsList_example = list_remove-IsList 0 two_sessions members two_sessions-IsList

-- The greatest time with a timeout that overflows, and a session without one.
abbrev late : Session
late = record (at_time null null 9223372036854775807) { timeout = pos 7200 }

abbrev never : Session
never = record (at_time null null 5) { timeout = negsuc 3 }

late_range : IsInRange late
late_range = record { time = (omega arith, omega arith); timeout = (omega arith, omega arith) }

never_range : IsInRange never
never_range = record { time = (omega arith, omega arith); timeout = (omega arith, omega arith) }

timeoutcmp-exact_example :
    (timeoutcmp (calculate_timeout late) (calculate_timeout never)
      ≡ compare_ℤ (exact late) (exact never))
    × (sess_timedout (pos 6) (calculate_timeout late) ≡ ltb_ℤ (exact late) (pos 6))
timeoutcmp-exact_example =
    timeoutcmp-exact late never (pos 6) late_range never_range (omega arith, omega arith)
