-- ===== src/Sessions/Timeouts.antt =====
-- The order of sessions by their timeouts, which `timeoutcmp` of ssl/ssl_sess.c decides.
use openssl_3_0_bee2evp.Prelude.{
  ℕ, ◌-◌, ◌^◌, ◌<◌, ◌≤◌, ◌≡◌, true, false, ltb, arith, ◌+◌, Bool-cases, inl, inr, if◌then◌else◌,
  suc, refl,
}
use openssl_3_0_bee2evp.Prelude.Int.{ℤ, pos, negsuc, ltb_ℤ, pos_part, neg_part}
use openssl_3_0_bee2evp.Sessions.{
  Session, calculate_timeout, timeoutcmp, sess_timedout, at_least, plus,
}

-- The values of `time_t`.
abbrev pub IsTime : ℤ → Type 0
IsTime a = (pos_part a < 2 ^ 63) × (neg_part a ≤ 2 ^ 63)

-- When a session times out, were there no overflow.
abbrev pub exact : Session → ℤ
exact ss = plus ss.time (pos_part ss.timeout)

abbrev pub compare_ℤ : ℤ → ℤ → ℤ
compare_ℤ a b = if ltb_ℤ a b then negsuc 0 else if ltb_ℤ b a then pos 1 else pos 0

pub at_least_total : (a b : Session) → at_least a b ≡ false → at_least b a ≡ true
unfolding timeoutcmp
at_least_total a b h = ground (arith, h)

pub at_least_trans :
    (a b c : Session) → at_least a b ≡ true → at_least b c ≡ true → at_least a c ≡ true
unfolding timeoutcmp
at_least_trans a b c h h' = ground (arith, h, h')

-- The two results of the calculation: the sum, and the sum less 2^64, which is negative.
data IsCalculated (e : ℤ) (ss : Session) : Type 0 where
  exactly : ss.timeout_ovf ≡ false → ss.calc_timeout ≡ e → pos_part e < 2 ^ 63 → IsCalculated e ss
  overflows :
      (n : ℕ)
      → ss.timeout_ovf ≡ true
      → ss.calc_timeout ≡ negsuc n
      → e ≡ pos (2 ^ 64 - suc n)
      → n < 2 ^ 63
      → IsCalculated e ss

calculated :
    (t : ℤ) (n : ℕ) (ss : Session)
    → ss.time ≡ t
    → ss.timeout ≡ pos n
    → pos_part t < 2 ^ 63
    → n < 2 ^ 63
    → IsCalculated (plus t n) (calculate_timeout ss)
unfolding calculate_timeout
calculated (pos m) n ss e e' small small' = elim (Bool-cases (ltb (m + n) (2 ^ 63))) [
  | inl fits ↦
      exactly (ground (arith, e, e', fits)) (ground (arith, e, e', fits)) (ground (arith, fits))
  | inr over ↦
      overflows (2 ^ 64 - (m + n) - 1) (ground (arith, e, e', over)) (ground (arith, e, e', over))
        (ground (arith, over)) (ground (arith, over))
]
calculated (negsuc m) n ss e e' small small' =
    exactly (ground (arith, e, e')) (ground (arith, e, e')) (ground (arith, small'))

negative :
    (t : ℤ) (n : ℕ) (ss : Session)
    → ss.time ≡ t
    → ss.timeout ≡ negsuc n
    → pos_part t < 2 ^ 63
    → IsCalculated (plus t 0) (calculate_timeout ss)
unfolding calculate_timeout
negative (pos m) n ss e e' small =
    exactly (ground (arith, e, e', small)) (ground (arith, e, e', small)) (ground (arith, small))
negative (negsuc m) n ss e e' small =
    exactly (ground (arith, e, e')) (ground (arith, e, e')) (ground arith)

-- The members are in the range of `time_t`, of 64 bits.
pub record IsInRange (ss : Session) : Type 0 where
  pub time : IsTime ss.time
  pub timeout : IsTime ss.timeout

calculate_timeout-IsCalculated :
    (ss : Session) → IsInRange ss → IsCalculated (exact ss) (calculate_timeout ss)
calculate_timeout-IsCalculated ss r = go ss.timeout refl
  where
    go : (d : ℤ) → ss.timeout ≡ d → IsCalculated (plus ss.time (pos_part d)) (calculate_timeout ss)
    go (pos n) e = calculated ss.time n ss refl e (r.time.0) (ground (arith, e, r.timeout.0))
    go (negsuc n) e = negative ss.time n ss refl e (r.time.0)

timeoutcmp_cases :
    (e e' : ℤ) (a b : Session)
    → IsCalculated e a
    → IsCalculated e' b
    → timeoutcmp a b ≡ compare_ℤ e e'
unfolding timeoutcmp
timeoutcmp_cases e e' a b (exactly o x s) (exactly o' x' s') = ground (arith, o, x, o', x')
timeoutcmp_cases e e' a b (exactly o x s) (overflows n o' x' y' z') =
    ground (arith, o, x, s, o', x', y', z')
timeoutcmp_cases e e' a b (overflows n o x y z) (exactly o' x' s') =
    ground (arith, o, x, y, z, o', x', s')
timeoutcmp_cases e e' a b (overflows n o x y z) (overflows n' o' x' y' z') =
    ground (arith, o, x, y, z, o', x', y', z')

sess_timedout_cases :
    (t e : ℤ) (a : Session) → pos_part t < 2 ^ 63 → IsCalculated e a → sess_timedout t a ≡ ltb_ℤ e t
unfolding sess_timedout
sess_timedout_cases t e a small (exactly o x s) = ground (arith, o, x)
sess_timedout_cases t e a small (overflows n o x y z) = ground (arith, o, y, z, small)

-- `timeoutcmp` of two sessions whose timeouts `ssl_session_calculate_timeout` has calculated is the
-- comparison of the times when they time out, the exact sums, although a sum may have overflowed; and
-- `sess_timedout` says that a session has timed out if and only if the exact sum is before the time it
-- is given. The members of the sessions and the time are in the range of a `time_t` of 64 bits.
pub timeoutcmp-exact :
    (a b : Session) (t : ℤ)
    → IsInRange a
    → IsInRange b
    → IsTime t
    → (timeoutcmp (calculate_timeout a) (calculate_timeout b) ≡ compare_ℤ (exact a) (exact b))
      × (sess_timedout t (calculate_timeout a) ≡ ltb_ℤ (exact a) t)
timeoutcmp-exact a b t r r' now =
    let c = calculate_timeout-IsCalculated a r in
    (
      timeoutcmp_cases (exact a) (exact b) _ _ c (calculate_timeout-IsCalculated b r'),
      sess_timedout_cases t (exact a) _ (now.0) c,
    )
