-- ===== src/Sessions.antt =====
-- The cache of sessions: ssl/ssl_sess.c. A pointer to a session is its number in a store of sessions;
-- the ends of the list are the addresses of two members of the context, as in the code. An assignment
-- or an access through a pointer that is not a session's is `none`.
pub mod Timeouts
pub mod Linked
pub mod Spots
pub mod Removed
pub mod Remove
pub mod Place
pub mod Added
pub mod Ways
pub mod Placing
pub mod Add
pub mod Context
pub mod Tests
use openssl_3_0_bee2evp.Prelude.{
  ℕ, zero, suc, ◌+◌, ◌-◌, ◌^◌, Bool, true, false, not, ◌&&◌, ◌||◌, Option, none, some, List, ltb,
  ◌==◌, if◌then◌else◌,
}
use openssl_3_0_bee2evp.Prelude.Int.{ℤ, pos, negsuc, neg, ltb_ℤ}

-- A pointer to a session. `head_addr` and `tail_addr` are the addresses of `session_cache_head` and
-- `session_cache_tail`, which the code casts to pointers to sessions.
pub data Link : Type 0 where
  null head_addr tail_addr : Link
  session : ℕ → Link

-- The members of `SSL_SESSION` that the cache uses. There is one context, and `owner` is whether it is
-- the session's; the length of `session_id` is that of the list.
pub record Session : Type 0 where
  pub prev : Link
  pub next : Link
  pub timeout : ℤ
  pub time : ℤ
  pub calc_timeout : ℤ
  pub timeout_ovf : Bool
  pub owner : Bool
  pub ssl_version : ℕ
  pub session_id : List ℕ
  pub not_resumable : Bool
  pub references : ℕ

-- The list of a context, and all sessions.
pub record Cache : Type 0 where
  pub session_cache_head : Link
  pub session_cache_tail : Link
  pub heap : ℕ → Session

-- A sum in `time_t`, of 64 bits, whose second summand is not negative.
abbrev pub plus : ℤ → ℕ → ℤ
plus (pos a) n = pos (a + n)
plus (negsuc a) n = if ltb a n then pos (n - suc a) else negsuc (a - n)

abbrev pub wrap : ℤ → ℤ
wrap (pos a) = if ltb a (2 ^ 63) then pos a else neg (2 ^ 64 - a)
wrap (negsuc a) = negsuc a

abbrev pub plus_time : ℤ → ℤ → ℤ
plus_time a (pos n) = wrap (plus a n)
plus_time a (negsuc n) = a

-- `ssl_session_calculate_timeout`
unfoldable pub calculate_timeout : Session → Session
calculate_timeout ss =
    let timeout = if ltb_ℤ ss.timeout (pos 0) then pos 0 else ss.timeout in
    let calc = plus_time ss.time timeout in
    record ss {
      timeout = timeout;
      calc_timeout = calc;
      timeout_ovf = ltb_ℤ (pos 0) ss.time && ltb_ℤ calc ss.time;
    }

-- `sess_timedout`
unfoldable pub sess_timedout : ℤ → Session → Bool
sess_timedout t ss = if ss.timeout_ovf then false else ltb_ℤ ss.calc_timeout t

-- `timeoutcmp`
unfoldable pub timeoutcmp : Session → Session → ℤ
timeoutcmp a b =
    if a.timeout_ovf && not b.timeout_ovf
    then pos 1
    else if not a.timeout_ovf && b.timeout_ovf
    then negsuc 0
    else if ltb_ℤ a.calc_timeout b.calc_timeout
    then negsuc 0
    else if ltb_ℤ b.calc_timeout a.calc_timeout
    then pos 1
    else pos 0

abbrev pub is_null : Link → Bool
is_null null = true
is_null _ = false

abbrev pub is_tail : Link → Bool
is_tail tail_addr = true
is_tail _ = false

abbrev pub is_head : Link → Bool
is_head head_addr = true
is_head _ = false

-- Steps that may go through a bad pointer.
infixl 5 ◌>>=◌
abbrev pub ◌>>=◌ : {A B : Type 0} → Option A → (A → Option B) → Option B
none >>= f = none
some a >>= f = f a

-- An assignment to a session.
unfoldable pub write : ℕ → (Session → Session) → Cache → Cache
write a f c = record c { heap = λ b. if b == a then f (c.heap b) else c.heap b }

abbrev pub deref : Link → Cache → Option Session
deref (session a) c = some (c.heap a)
deref _ c = none

-- `l->next = q` and `l->prev = p`
abbrev pub set_next : Link → Link → Cache → Option Cache
set_next (session a) q c = some (write a (λ s. record s { next = q }) c)
set_next _ q c = none

abbrev pub set_prev : Link → Link → Cache → Option Cache
set_prev (session a) p c = some (write a (λ s. record s { prev = p }) c)
set_prev _ p c = none

-- `SSL_SESSION_list_remove`, up to the pointers of the session itself.
abbrev pub unlink : ℕ → Cache → Option Cache
unlink x c =
    let s = c.heap x in
    if is_tail s.next
    then (if is_head s.prev
        then some (record c { session_cache_head = null; session_cache_tail = null })
        else set_next s.prev tail_addr (record c { session_cache_tail = s.prev }))
    else if is_head s.prev
    then set_prev s.next head_addr (record c { session_cache_head = s.next })
    else set_prev s.next s.prev c >>= λ c'. set_next (c'.heap x).prev (c'.heap x).next c'

-- `SSL_SESSION_list_remove`
unfoldable pub list_remove : ℕ → Cache → Option Cache
list_remove x c = if is_null (c.heap x).next || is_null (c.heap x).prev then some c else do
  c' ← unlink x c
  some (write x (λ s. record s { prev = null; next = null; owner = false }) c')

-- `timeoutcmp(a, b) >= 0`
abbrev pub at_least : Session → Session → Bool
at_least a b = not (ltb_ℤ (timeoutcmp a b) (pos 0))

abbrev pub put_first : ℕ → Cache → Option Cache
put_first x c = do
  let c1 = write x (λ s. record s { next = c.session_cache_head }) c
  c2 ← set_prev (c1.heap x).next (session x) c1
  some (record (write x (λ s. record s { prev = head_addr }) c2) { session_cache_head = session x })

abbrev pub put_last : ℕ → Cache → Option Cache
put_last x c = do
  let c1 = write x (λ s. record s { prev = c.session_cache_tail }) c
  c2 ← set_next (c1.heap x).prev (session x) c1
  some (record (write x (λ s. record s { next = tail_addr }) c2) { session_cache_tail = session x })

abbrev pub put_before : ℕ → Link → Cache → Option Cache
put_before x l c = do
  let c1 = write x (λ s. record s { next = l }) c
  s1 ← deref l c1
  let c2 = write x (λ s. record s { prev = s1.prev }) c1
  s2 ← deref l c2
  c3 ← set_next s2.prev (session x) c2
  set_prev l (session x) c3

-- The loop of `SSL_SESSION_list_add`, on fuel.
unfoldable pub add_between : ℕ → ℕ → Link → Cache → Option Cache
add_between zero x l c = none
add_between (suc n) x l c = if is_tail l then some c else do
  s ← deref l c
  let rest = add_between n x s.next c
  if at_least (c.heap x) s then put_before x l c else rest

-- The list has a first and a last session.
abbrev pub put_in_order : ℕ → ℕ → Session → Session → Cache → Option Cache
put_in_order n x first last c =
    if at_least (c.heap x) first
    then put_first x c
    else if not (at_least (c.heap x) last)
    then put_last x c
    else add_between n x first.next c

-- The session is not in the list.
abbrev pub put_in : ℕ → ℕ → Cache → Option Cache
put_in n x c =
    if is_null c.session_cache_head
    then some (record (write x (λ s. record s { prev = head_addr; next = tail_addr }) c) {
      session_cache_head = session x;
      session_cache_tail = session x;
    })
    else do
      first ← deref c.session_cache_head c
      last ← deref c.session_cache_tail c
      put_in_order n x first last c

-- `SSL_SESSION_list_add`
unfoldable pub list_add : ℕ → ℕ → Cache → Option Cache
list_add n x c = do
  c1 ←
      if not (is_null (c.heap x).next) && not (is_null (c.heap x).prev)
      then list_remove x c
      else some c
  c2 ← put_in n x c1
  some (write x (λ s. record s { owner = true }) c2)
