-- ===== src/Statem/Flow/Failure.antt =====
-- The sub-state machines return an error only if the connection has failed or waits.
use openssl_3_0_bee2evp.Prelude.{◌⊎◌, subst}
use openssl_3_0_bee2evp.Ssl.{Env, Ssl}
use openssl_3_0_bee2evp.Statem.Control.{HasFailed}
use openssl_3_0_bee2evp.Statem.Flow.{sub_error, Pass, FlowCalls}
use openssl_3_0_bee2evp.Statem.Flow.Errors.{FailsOr}
use openssl_3_0_bee2evp.Statem.Flow.Errors.Read.{IsReadWait, read_pass-Fails}
use openssl_3_0_bee2evp.Statem.Flow.Errors.Write.{IsWriteWait, write_pass-Fails}
use openssl_3_0_bee2evp.Statem.Flow.Machine.{Loops, ends, goes_on, reading, writing}

Loops-FailsOr :
    (W : Ssl → Type 0) (pass : Ssl → Pass) (s t : Ssl)
    → ((u : Ssl) → FailsOr W (pass u))
    → Loops pass s sub_error t
    → HasFailed t ⊎ W t
Loops-FailsOr W pass s t fails (ends h) = subst (FailsOr W) h (fails s)
Loops-FailsOr W pass s t fails (goes_on {u = u} h rest) = Loops-FailsOr W pass u t fails rest

-- When the reading side returns without having finished, either the connection is in the permanent
-- error state, whatever the function that reported the error did; or it waits for a message, for the
-- body of a message, for a message in place of one that was dropped, or for more work.
pub reading_error :
    (e : Env) (f : FlowCalls) (s t : Ssl)
    → Loops (reading e f) s sub_error t
    → HasFailed t ⊎ IsReadWait e f t
reading_error e f s t =
    Loops-FailsOr (IsReadWait e f) (reading e f) s t
      (λ u. read_pass-Fails e f u.statem.read_state u)

-- When the writing side returns without having finished, either the connection is in the permanent
-- error state, whatever the function that reported the error did; or it waits to write, or for more
-- work.
writing_error :
    (e : Env) (f : FlowCalls) (s t : Ssl)
    → Loops (writing e f) s sub_error t
    → HasFailed t ⊎ IsWriteWait e f t
writing_error e f s t =
    Loops-FailsOr (IsWriteWait e f) (writing e f) s t
      (λ u. write_pass-Fails e f u.statem.write_state u)
