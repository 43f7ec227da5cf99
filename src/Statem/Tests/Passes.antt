-- ===== src/Statem/Tests/Passes.antt =====
-- Messages that are handed on to their functions, and passes of the message flow.
use openssl_3_0_bee2evp.Prelude.{◌⊎◌, refl, true, false}
use openssl_3_0_bee2evp.Ssl.{
  ok, cr_cert, cr_key_exch, sr_cert, sr_key_exch, server_key_exchange, client_key_exchange,
  work_finished_stop, flow_writing, flow_finished, write_pre_work, Ssl,
}
use openssl_3_0_bee2evp.Statem.{in_before, set_in_handshake, finish_read}
use openssl_3_0_bee2evp.Statem.Control.{HasFailed}
use openssl_3_0_bee2evp.Statem.Fixtures.{env, calls, flow_calls, tls12}
use openssl_3_0_bee2evp.Statem.Client.{key_exchange_expected}
use openssl_3_0_bee2evp.Statem.Client.Read.{
  read_cert_status, read_cert, client_read_from, client_read_transition,
}
use openssl_3_0_bee2evp.Statem.Client.Dispatch as ClientDispatch
use openssl_3_0_bee2evp.Statem.Client.Dispatch.{client_read_transition-Processes}
use openssl_3_0_bee2evp.Statem.Server.Read.{finish_move, server_read_from, server_read_transition}
use openssl_3_0_bee2evp.Statem.Server.Dispatch as ServerDispatch
use openssl_3_0_bee2evp.Statem.Server.Dispatch.{server_read_transition-Processes}
use openssl_3_0_bee2evp.Statem.Work.{
  or_return, clear_bufs, update_cache, reset_dtls, clean_up, end_pha, finish_handshake,
}
use openssl_3_0_bee2evp.Statem.Work.Client.{client_pre_work_of, client_pre_work}
use openssl_3_0_bee2evp.Statem.Flow.{after_work}
use openssl_3_0_bee2evp.Statem.Flow.Reading.{get_message, header_pass, read_pass}
use openssl_3_0_bee2evp.Statem.Flow.Writing.{pre_work, pre_work_pass, write_pass}
use openssl_3_0_bee2evp.Statem.Flow.Errors.Read.{IsReadWait}
use openssl_3_0_bee2evp.Statem.Flow.Machine.{
  set_flow, enter, start, ends, finishes, has_ended, runs,
}
use openssl_3_0_bee2evp.Statem.Flow.Failure.{reading_error}
use openssl_3_0_bee2evp.Statem.Flow.Success.{IsOver, state_machine-IsOver}

client_read_transition-Processes_example : ClientDispatch.Processes server_key_exchange cr_key_exch
unfolding client_read_transition client_read_from read_cert read_cert_status key_exchange_expected
    finish_read
client_read_transition-Processes_example =
    client_read_transition-Processes env (tls12 cr_cert) (tls12 cr_key_exch) server_key_exchange
      refl

server_read_transition-Processes_example : ServerDispatch.Processes client_key_exchange sr_key_exch
unfolding server_read_transition server_read_from finish_move finish_read
server_read_transition-Processes_example =
    server_read_transition-Processes env (tls12 sr_cert) (tls12 sr_key_exch) client_key_exchange
      refl

reading_error_example : HasFailed (tls12 cr_cert) ⊎ IsReadWait env flow_calls (tls12 cr_cert)
unfolding read_pass header_pass get_message
reading_error_example = reading_error env flow_calls (tls12 cr_cert) (tls12 cr_cert) (ends refl)

-- A client that has come to the end of its handshake.
abbrev finishing : Ssl
finishing = record (tls12 ok) {
  statem = record ((tls12 ok).statem) { flow = flow_writing; write_state = write_pre_work };
}

abbrev counted : Ssl
counted = record finishing { statem = record (finishing.statem) { in_handshake = 2 } }

abbrev finished_connection : Ssl
finished_connection =
    let s = (finish_handshake env.consts calls true true counted).0 in
    record s { statem = record (s.statem) { write_state_work = work_finished_stop } }

state_machine-IsOver_example :
    IsOver env flow_calls (set_in_handshake false (set_flow flow_finished finished_connection))
unfolding enter start set_in_handshake in_before write_pass pre_work_pass pre_work client_pre_work
    client_pre_work_of finish_handshake or_return after_work clear_bufs clean_up update_cache
    reset_dtls end_pha
state_machine-IsOver_example =
    state_machine-IsOver env flow_calls false finishing
      (set_in_handshake false (set_flow flow_finished finished_connection))
      (runs {t = counted} {u = counted} (λ h. cc) refl refl
        (has_ended refl (ends refl) (finishes refl)))
