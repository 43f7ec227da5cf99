-- ===== src/Statem/Server/Flight12.antt =====
-- The messages that a server below TLSv1.3 accepts after ClientKeyExchange.
use openssl_3_0_bee2evp.Prelude.{
  ◌≡◌, ◌∙◌, Bool, true, false, not, ◌&&◌, List, [], ◌∷◌, inl, inr, Bool-cases, if◌then◌else◌, arith,
}
use openssl_3_0_bee2evp.Ssl.{
  HandState, sr_key_exch, sr_cert_vrfy, sr_next_proto, sr_change, sr_finished, MsgType,
  certificate_verify, change_cipher_spec, next_proto, finished, Env, Ssl, is_tls13,
}
use openssl_3_0_bee2evp.Statem.{finish_read}
use openssl_3_0_bee2evp.Statem.Trace.{Reads, Phase, Leads, Stops, Suffix, from_last, exactly}
use openssl_3_0_bee2evp.Statem.Server.Read.{
  moved, finish_move, server_read_from, server_read_key_exch, server_read_change,
  server_read_transition,
}

-- What the server knows of the client: it has sent a certificate, its certificate needs no
-- CertificateVerify, and it negotiated the next protocol extension.
pub record Client : Type 0 where
  pub peer : Bool
  pub no_verify : Bool
  pub npn : Bool

abbrev pub finishing : Client → List MsgType
finishing c = if c.npn then next_proto ∷ finished ∷ [] else finished ∷ []

-- The messages of the client after ClientKeyExchange.
abbrev pub client_finish : Client → List MsgType
client_finish c =
    if c.peer && not c.no_verify
    then certificate_verify ∷ change_cipher_spec ∷ finishing c
    else change_cipher_spec ∷ finishing c

module _ (e : Env) where
  -- What processing a message of this flight leaves alone.
  pub record Keeps12 (s t : Ssl) : Type 0 where
    pub same_state : t.statem.hand_state ≡ s.statem.hand_state
    pub same_version : is_tls13 e.consts t ≡ is_tls13 e.consts s
    pub same_peer : t.session_peer ≡ s.session_peer
    pub same_verify : t.statem.no_cert_verify ≡ s.statem.no_cert_verify
    pub same_npn : t.npn_seen ≡ s.npn_seen

  -- A server below TLSv1.3 in a given state.
  pub record Is12 (c : Client) (h : HandState) (s : Ssl) : Type 0 where
    pub at : s.statem.hand_state ≡ h
    pub old : is_tls13 e.consts s ≡ false
    pub peers : s.session_peer ≡ c.peer
    pub verifies : s.statem.no_cert_verify ≡ c.no_verify
    pub npns : s.npn_seen ≡ c.npn

  keeps_at : (c : Client) (h : HandState) (s t : Ssl) → Is12 c h s → Keeps12 s t → Is12 c h t
  keeps_at c h s t i k = record {
    at = k.same_state ∙ i.at;
    old = k.same_version ∙ i.old;
    peers = k.same_peer ∙ i.peers;
    verifies = k.same_verify ∙ i.verifies;
    npns = k.same_npn ∙ i.npns;
  }

  abbrev phase : Client → Phase
  phase c = record {
    transition = server_read_transition e;
    Keeps = Keeps12;
    At = Is12 c;
    at_state = λ h s i. i.at;
    keeps_at = keeps_at c;
    last = sr_finished;
  }

  -- One read below TLSv1.3.
  step :
      (c : Client) (h : HandState) (s s' : Ssl) (mt : MsgType)
      → Is12 c h s
      → server_read_transition e s mt ≡ (s', true)
      → server_read_from e h mt s ≡ moved s'
  unfolding server_read_transition finish_move finish_read
  step c h s s' mt i r = ground arith

  module _ (c : Client) where
    finished-Stops : Stops (phase c) sr_finished
    unfolding server_read_from
    finished-Stops s s' mt i r = ground (arith, step c sr_finished s s' mt i r)

    next_proto-Leads : Leads (phase c) sr_next_proto finished sr_finished
    unfolding server_read_from
    next_proto-Leads s s' mt i r = ground (arith, step c sr_next_proto s s' mt i r)

    cert_vrfy-Leads : Leads (phase c) sr_cert_vrfy change_cipher_spec sr_change
    unfolding server_read_from
    cert_vrfy-Leads s s' mt i r = ground (arith, step c sr_cert_vrfy s s' mt i r)

    change-Leads_npn : c.npn ≡ true → Leads (phase c) sr_change next_proto sr_next_proto
    unfolding server_read_from server_read_change
    change-Leads_npn n s s' mt i r = ground (arith, step c sr_change s s' mt i r)

    change-Leads : c.npn ≡ false → Leads (phase c) sr_change finished sr_finished
    unfolding server_read_from server_read_change
    change-Leads n s s' mt i r = ground (arith, step c sr_change s s' mt i r)

    key_exch-Leads_verify :
        (c.peer && not c.no_verify) ≡ true
        → Leads (phase c) sr_key_exch certificate_verify sr_cert_vrfy
    unfolding server_read_from server_read_key_exch
    key_exch-Leads_verify v s s' mt i r = ground (arith, step c sr_key_exch s s' mt i r)

    key_exch-Leads :
        (c.peer && not c.no_verify) ≡ false
        → Leads (phase c) sr_key_exch change_cipher_spec sr_change
    unfolding server_read_from server_read_key_exch
    key_exch-Leads v s s' mt i r = ground (arith, step c sr_key_exch s s' mt i r)

    from_change : Suffix (phase c) sr_change (λ mts. mts ≡ finishing c)
    from_change = elim (Bool-cases c.npn) [
      | inl n ↦ simp n (
          exactly (phase c) (finished ∷ []) (λ p. cc) (change-Leads_npn n)
            (exactly (phase c) [] (λ p. cc) next_proto-Leads (from_last (phase c) finished-Stops)))
      | inr n ↦
          simp n
            (exactly (phase c) [] (λ p. cc) (change-Leads n) (from_last (phase c) finished-Stops))
    ]

    -- A server below TLSv1.3 that has processed the ClientKeyExchange and comes to the state after
    -- the client's Finished has read CertificateVerify first if and only if the client sent a
    -- certificate that needs one, then the change of cipher specification, then NextProto if and
    -- only if that was negotiated, then Finished, and nothing else. Processing a message is assumed
    -- to keep the state and what is known of the client.
    pub server12_flight :
        (s t : Ssl) (mts : List MsgType)
        → Is12 c sr_key_exch s
        → Reads (server_read_transition e) Keeps12 s mts t
        → t.statem.hand_state ≡ sr_finished
        → mts ≡ client_finish c
    server12_flight = elim (Bool-cases (c.peer && not c.no_verify)) [
      | inl v ↦ rw v (
          exactly (phase c) (change_cipher_spec ∷ finishing c) (λ p. cc) (key_exch-Leads_verify v)
            (exactly (phase c) (finishing c) (λ p. cc) cert_vrfy-Leads from_change))
      | inr v ↦ rw v (exactly (phase c) (finishing c) (λ p. cc) (key_exch-Leads v) from_change)
    ]
