-- ===== src/Statem/Flow/Errors.antt =====
-- Why a sub-state machine returns without having finished (ssl/statem/statem.c): the connection has
-- failed, or it waits.
pub mod Read
pub mod Write
use openssl_3_0_bee2evp.Prelude.{
  ◌≡◌, refl, ◌≢◌, ◌⊎◌, inl, inr, Bool, true, false, arith, if◌then◌else◌,
}
use openssl_3_0_bee2evp.Ssl.{WorkState, work_more_a, internal_error, Ssl}
use openssl_3_0_bee2evp.Statem.{fatal}
use openssl_3_0_bee2evp.Statem.Control.{HasFailed, fatal-HasFailed}
use openssl_3_0_bee2evp.Statem.Flow.{
  SubState, sub_error, sub_finished, Pass, again, returned, check_fatal, after_work, is_more,
}

pub check_fatal-HasFailed : (s : Ssl) → HasFailed (check_fatal s)
unfolding check_fatal
check_fatal-HasFailed s = ground (arith, fatal-HasFailed internal_error s)

-- Where a pass returns with an error, the connection has failed or satisfies `W`.
abbrev pub FailsOr : (Ssl → Type 0) → Pass → Type 0
FailsOr W (returned sub_error t) = HasFailed t ⊎ W t
FailsOr W _ = Unit {0}

pub after_work-FailsOr :
    (W : Ssl → Type 0) (w : WorkState) (stop : SubState) (s : Ssl) (next : Pass)
    → stop ≢ sub_error
    → (is_more w ≡ true → W s)
    → FailsOr W next
    → FailsOr W (after_work w stop s next)
unfolding after_work
after_work-FailsOr W WorkState.work_error stop s next ne m n = inl (check_fatal-HasFailed s)
after_work-FailsOr W WorkState.work_finished_stop SubState.sub_error s next ne m n =
    absurd (ne refl)
after_work-FailsOr W WorkState.work_finished_stop SubState.sub_finished s next ne m n = tt
after_work-FailsOr W WorkState.work_finished_stop SubState.sub_end_handshake s next ne m n = tt
after_work-FailsOr W WorkState.work_finished_continue stop s next ne m n = n
after_work-FailsOr W WorkState.work_more_a stop s next ne m n = inr (m refl)
after_work-FailsOr W WorkState.work_more_b stop s next ne m n = inr (m refl)
after_work-FailsOr W WorkState.work_more_c stop s next ne m n = inr (m refl)

-- A conditional between two passes.
pub if-FailsOr :
    (W : Ssl → Type 0) (b : Bool) (p q : Pass)
    → (b ≡ true → FailsOr W p)
    → (b ≡ false → FailsOr W q)
    → FailsOr W (if b then p else q)
if-FailsOr W true p q x y = x refl
if-FailsOr W false p q x y = y refl
