-- ===== src/Statem/Server/Flight13.antt =====
-- The messages that a TLSv1.3 server accepts after the client's Certificate.
use openssl_3_0_bee2evp.Prelude.{◌≡◌, ◌∙◌, Bool, true, false, List, [], ◌∷◌, if◌then◌else◌, arith}
use openssl_3_0_bee2evp.Ssl.{
  HandState, sr_cert, sr_cert_vrfy, sr_finished, MsgType, certificate_verify, finished, Env, Ssl,
  is_tls13,
}
use openssl_3_0_bee2evp.Statem.{finish_read}
use openssl_3_0_bee2evp.Statem.Trace.{Reads, Phase, Leads, Stops, from_last, exactly}
use openssl_3_0_bee2evp.Statem.Server.Read.{
  server13_read_from, server13_read_transition, server_read_transition,
}

module _ (e : Env) where
  -- What processing a message of this flight leaves alone.
  pub record Keeps13 (s t : Ssl) : Type 0 where
    pub same_state : t.statem.hand_state ≡ s.statem.hand_state
    pub same_version : is_tls13 e.consts t ≡ is_tls13 e.consts s
    pub same_peer : t.session_peer ≡ s.session_peer

  -- A TLSv1.3 server in a given state, whose client has sent a certificate or an empty list.
  pub record Is13 (peer : Bool) (h : HandState) (s : Ssl) : Type 0 where
    pub at : s.statem.hand_state ≡ h
    pub new : is_tls13 e.consts s ≡ true
    pub peers : s.session_peer ≡ peer

  keeps_at : (peer : Bool) (h : HandState) (s t : Ssl) → Is13 peer h s → Keeps13 s t → Is13 peer h t
  keeps_at peer h s t i k = record {
    at = k.same_state ∙ i.at;
    new = k.same_version ∙ i.new;
    peers = k.same_peer ∙ i.peers;
  }

  abbrev phase : Bool → Phase
  phase peer = record {
    transition = server_read_transition e;
    Keeps = Keeps13;
    At = Is13 peer;
    at_state = λ h s i. i.at;
    keeps_at = keeps_at peer;
    last = sr_finished;
  }

  -- One read in TLSv1.3.
  step :
      (peer : Bool) (h : HandState) (s s' : Ssl) (mt : MsgType)
      → Is13 peer h s
      → server_read_transition e s mt ≡ (s', true)
      → server13_read_from h mt s ≡ (s', true)
  unfolding server_read_transition server13_read_transition finish_read
  step peer h s s' mt i r = ground arith

  finished-Stops : (peer : Bool) → Stops (phase peer) sr_finished
  unfolding server13_read_from
  finished-Stops peer s s' mt i r = ground (arith, step peer sr_finished s s' mt i r)

  cert_vrfy-Leads : (peer : Bool) → Leads (phase peer) sr_cert_vrfy finished sr_finished
  unfolding server13_read_from
  cert_vrfy-Leads peer s s' mt i r = ground (arith, step peer sr_cert_vrfy s s' mt i r)

  cert-Leads_verify : Leads (phase true) sr_cert certificate_verify sr_cert_vrfy
  unfolding server13_read_from
  cert-Leads_verify s s' mt i r = ground (arith, step true sr_cert s s' mt i r)

  cert-Leads : Leads (phase false) sr_cert finished sr_finished
  unfolding server13_read_from
  cert-Leads s s' mt i r = ground (arith, step false sr_cert s s' mt i r)

  -- A TLSv1.3 server that has processed the client's Certificate and comes to the state after the
  -- client's Finished has read CertificateVerify before Finished if the list of certificates was not
  -- empty, Finished alone if it was, and nothing else. Processing a message is assumed to keep the
  -- state, the version and the client's certificate.
  pub server13_flight :
      (peer : Bool) (s t : Ssl) (mts : List MsgType)
      → Is13 peer sr_cert s
      → Reads (server_read_transition e) Keeps13 s mts t
      → t.statem.hand_state ≡ sr_finished
      → mts ≡ (if peer then certificate_verify ∷ finished ∷ [] else finished ∷ [])
  server13_flight true =
      exactly (phase true) (finished ∷ []) (λ p. cc) cert-Leads_verify
        (exactly (phase true) [] (λ p. cc) (cert_vrfy-Leads true)
          (from_last (phase true) (finished-Stops true)))
  server13_flight false =
      exactly (phase false) [] (λ p. cc) cert-Leads (from_last (phase false) (finished-Stops false))
