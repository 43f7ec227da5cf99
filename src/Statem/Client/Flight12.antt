-- ===== src/Statem/Client/Flight12.antt =====
-- The messages that a client below TLSv1.3 accepts from the server's Certificate to ServerHelloDone.
use openssl_3_0_bee2evp.Prelude.{
  ◌≡◌, refl, ap, ap₂, ◌∙◌, ◌⊎◌, inl, inr, Bool, true, false, ◌||◌, some, List, [], ◌∷◌,
  if◌then◌else◌, ◌&&◌, if-eq, arith,
}
use openssl_3_0_bee2evp.Ssl.{
  HandState, ◌is◌, cr_cert, cr_cert_status, cr_key_exch, cr_cert_req, cr_srvr_done, MsgType,
  certificate_status, server_key_exchange, certificate_request, server_done, Env, Ssl, any_psk,
  is_tls13,
}
use openssl_3_0_bee2evp.Statem.Control.{finish_read-true}
use openssl_3_0_bee2evp.Statem.Trace.{
  Reads, Phase, Leads, Stops, Suffix, from_last, from_each, exactly,
}
use openssl_3_0_bee2evp.Statem.Client.{cert_req_allowed, key_exchange_expected}
use openssl_3_0_bee2evp.Statem.Client.Read.{
  read_cert_req, read_key_exch, read_cert_status, read_cert, client_read_from,
  client_read_transition,
}

-- A message that may be left out.
abbrev pub optional : Bool → MsgType → List MsgType → List MsgType
optional b m mts = if b then m ∷ mts else mts

-- The end of the server's flight, with a request for a certificate only where one is allowed.
abbrev pub IsEnd : Bool → List MsgType → Type 0
IsEnd allowed mts =
    (req : Bool) × (mts ≡ optional req certificate_request (server_done ∷ []))
    × (req ≡ true → allowed ≡ true)

-- With a ServerKeyExchange before it: always if it is expected, and never unless it is expected or
-- the cipher suite uses a pre-shared key.
abbrev pub IsExchange : Bool → Bool → Bool → List MsgType → Type 0
IsExchange expected psk allowed mts =
    (ske : Bool) × (rest : List MsgType) × (mts ≡ optional ske server_key_exchange rest)
    × IsEnd allowed rest
    × (expected ≡ true → ske ≡ true)
    × (ske ≡ true → (expected || psk) ≡ true)

-- With a CertificateStatus before that, only if the client has asked for one.
abbrev pub IsFlight : Bool → Bool → Bool → Bool → List MsgType → Type 0
IsFlight status expected psk allowed mts =
    (stapled : Bool) × (rest : List MsgType) × (mts ≡ optional stapled certificate_status rest)
    × IsExchange expected psk allowed rest
    × (stapled ≡ true → status ≡ true)

module _ (e : Env) where
  -- What processing a message of this flight leaves alone.
  pub record Keeps12 (s t : Ssl) : Type 0 where
    pub same_state : t.statem.hand_state ≡ s.statem.hand_state
    pub same_tls13 : is_tls13 e.consts t ≡ is_tls13 e.consts s
    pub same_version : t.version ≡ s.version
    pub same_cipher : t.new_cipher ≡ s.new_cipher
    pub same_status : t.status_expected ≡ s.status_expected

module _ (e : Env) (s0 : Ssl) where
  -- A client below TLSv1.3 in a given state that has negotiated the same as `s0`.
  pub record Is12 (h : HandState) (s : Ssl) : Type 0 where
    pub at : s.statem.hand_state ≡ h
    pub old : is_tls13 e.consts s ≡ false
    pub version : s.version ≡ s0.version
    pub cipher : s.new_cipher ≡ s0.new_cipher
    pub status : s.status_expected ≡ s0.status_expected

  keeps_at : (h : HandState) (s t : Ssl) → Is12 h s → Keeps12 e s t → Is12 h t
  keeps_at h s t i k = record {
    at = k.same_state ∙ i.at;
    old = k.same_tls13 ∙ i.old;
    version = k.same_version ∙ i.version;
    cipher = k.same_cipher ∙ i.cipher;
    status = k.same_status ∙ i.status;
  }

  abbrev phase : Phase
  phase = record {
    transition = client_read_transition e;
    Keeps = Keeps12 e;
    At = Is12;
    at_state = λ h s i. i.at;
    keeps_at = keeps_at;
    last = cr_srvr_done;
  }

  abbrev kex : Bool
  kex = key_exchange_expected s0

  abbrev psk : Bool
  psk = any_psk s0.new_cipher

  abbrev allowed : Bool
  allowed = cert_req_allowed e.consts s0

  -- One read below TLSv1.3.
  step :
      (h : HandState) (s s' : Ssl) (mt : MsgType)
      → Is12 h s
      → client_read_transition e s mt ≡ (s', true)
      → client_read_from e h mt s ≡ some s'
  unfolding client_read_transition
  step h s s' mt i r =
      finish_read-true mt s s' (client_read_from e h mt s) (simp (i.old, i.at) at r)

  same_kex : (h : HandState) (s : Ssl) → Is12 h s → key_exchange_expected s ≡ kex
  unfolding key_exchange_expected
  same_kex h s i = rw (i.cipher) refl

  same_allowed : (h : HandState) (s : Ssl) → Is12 h s → cert_req_allowed e.consts s ≡ allowed
  unfolding cert_req_allowed
  same_allowed h s i = rw (i.cipher, i.version) refl

  done-Stops : Stops phase cr_srvr_done
  unfolding client_read_from
  done-Stops s s' mt i r = ground (arith, step cr_srvr_done s s' mt i r)

  cert_req-Leads : Leads phase cr_cert_req server_done cr_srvr_done
  unfolding client_read_from read_cert_req
  cert_req-Leads s s' mt i r = ground (arith, step cr_cert_req s s' mt i r)

  -- What a read leads to where the end of the flight is due.
  abbrev EndStep : MsgType → Ssl → Type 0
  EndStep mt s' =
      ((mt ≡ certificate_request) × (allowed ≡ true) × Is12 cr_cert_req s')
      ⊎ ((mt ≡ server_done) × Is12 cr_srvr_done s')

  end_step :
      (h : HandState) (s s' : Ssl) (mt : MsgType)
      → Is12 h s
      → read_key_exch e mt s ≡ some s'
      → EndStep mt s'
  unfolding read_key_exch read_cert_req
  end_step h s s' mt i r = ground (arith, same_allowed h s i)

  -- And where a ServerKeyExchange may come first.
  abbrev ExchangeStep : MsgType → Ssl → Type 0
  ExchangeStep mt s' =
      ((mt ≡ server_key_exchange) × ((kex || psk) ≡ true) × Is12 cr_key_exch s')
      ⊎ ((kex ≡ false) × EndStep mt s')

  exchange_step :
      (h : HandState) (s s' : Ssl) (mt : MsgType)
      → Is12 h s
      → read_cert_status e mt s ≡ some s'
      → ExchangeStep mt s'
  unfolding read_cert_status
  exchange_step h s s' mt i =
      if-eq (key_exchange_expected s || (any_psk s.new_cipher && mt is server_key_exchange))
        (λ b r. inl (ground (arith, b, r, same_kex h s i, i.cipher)))
        (λ b r. inr (ground (arith, b, same_kex h s i), end_step h s s' mt i r))

  -- And where a CertificateStatus may come first.
  cert_step :
      (s s' : Ssl) (mt : MsgType)
      → Is12 cr_cert s
      → read_cert e mt s ≡ some s'
      → ((mt ≡ certificate_status) × (s0.status_expected ≡ true) × Is12 cr_cert_status s')
        ⊎ ExchangeStep mt s'
  unfolding read_cert
  cert_step s s' mt i =
      if-eq (s.status_expected && mt is certificate_status) (λ b r. inl (ground (arith, b, r)))
        (λ b r. inr (exchange_step cr_cert s s' mt i r))

  from_cert_req : Suffix phase cr_cert_req (λ mts. mts ≡ server_done ∷ [])
  from_cert_req = exactly phase [] (λ p. cc) cert_req-Leads (from_last phase done-Stops)

  -- What is read after a message leads to one more of its flight.
  end_after :
      (s' u t : Ssl) (mt : MsgType) (rest : List MsgType)
      → EndStep mt s'
      → Keeps12 e s' u
      → Reads (client_read_transition e) (Keeps12 e) u rest t
      → t.statem.hand_state ≡ cr_srvr_done
      → IsEnd allowed (mt ∷ rest)
  end_after s' u t mt rest (inl (is_m, ok, i)) k more f =
      (true, ap₂ ◌∷◌ is_m (from_cert_req u t rest (keeps_at cr_cert_req s' u i k) more f), λ h. ok)
  end_after s' u t mt rest (inr (is_m, i)) k more f = (
    false,
    ap₂ ◌∷◌ is_m (from_last phase done-Stops u t rest (keeps_at cr_srvr_done s' u i k) more f),
    λ h. cc,
  )

  from_key_exch : Suffix phase cr_key_exch (IsEnd allowed)
  unfolding client_read_from
  from_key_exch =
      from_each phase cr_key_exch (IsEnd allowed) (λ p. cc)
        λ s s' u t mt rest i r k more f.
          end_after s' u t mt rest (end_step cr_key_exch s s' mt i (step cr_key_exch s s' mt i r)) k
            more f

  exchange_after :
      (s' u t : Ssl) (mt : MsgType) (rest : List MsgType)
      → ExchangeStep mt s'
      → Keeps12 e s' u
      → Reads (client_read_transition e) (Keeps12 e) u rest t
      → t.statem.hand_state ≡ cr_srvr_done
      → IsExchange kex psk allowed (mt ∷ rest)
  exchange_after s' u t mt rest (inl (is_m, ok, i)) k more f = (
    true,
    rest,
    ap (λ m. m ∷ rest) is_m,
    from_key_exch u t rest (keeps_at cr_key_exch s' u i k) more f,
    λ h. refl,
    λ h. ok,
  )
  exchange_after s' u t mt rest (inr (quiet, next)) k more f =
      (false, mt ∷ rest, refl, end_after s' u t mt rest next k more f, λ h. cc, λ h. cc)

  from_cert_status : Suffix phase cr_cert_status (IsExchange kex psk allowed)
  unfolding client_read_from
  from_cert_status =
      from_each phase cr_cert_status (IsExchange kex psk allowed) (λ p. cc)
        λ s s' u t mt rest i r k more f.
          exchange_after s' u t mt rest
            (exchange_step cr_cert_status s s' mt i (step cr_cert_status s s' mt i r)) k more f

  from_cert : Suffix phase cr_cert (IsFlight s0.status_expected kex psk allowed)
  unfolding client_read_from
  from_cert =
      from_each phase cr_cert (IsFlight s0.status_expected kex psk allowed) (λ p. cc)
        λ s s' u t mt rest i r k more f. elim (cert_step s s' mt i (step cr_cert s s' mt i r)) [
          | inl (is_m, ok, j) ↦ (
            true,
            rest,
            ap (λ m. m ∷ rest) is_m,
            from_cert_status u t rest (keeps_at cr_cert_status s' u j k) more f,
            λ h. ok,
          )
          | inr next ↦
              (false, mt ∷ rest, refl, exchange_after s' u t mt rest next k more f, λ h. cc)
        ]

-- A client below TLSv1.3 that has processed the server's Certificate and comes to the state after
-- ServerHelloDone has read, in this order: at most a CertificateStatus, and that only if it asked for
-- one; a ServerKeyExchange, always if the cipher suite expects one, and otherwise at most if the
-- suite uses a pre-shared key; at most a CertificateRequest, and that only if the suite allows one;
-- then ServerHelloDone, and nothing else. Processing a message is assumed to keep the state, the
-- version, the cipher suite and whether a status is expected.
pub client12_flight :
    (e : Env) (s t : Ssl) (mts : List MsgType)
    → s.statem.hand_state ≡ cr_cert
    → is_tls13 e.consts s ≡ false
    → Reads (client_read_transition e) (Keeps12 e) s mts t
    → t.statem.hand_state ≡ cr_srvr_done
    → IsFlight s.status_expected
        (key_exchange_expected s)
        (any_psk s.new_cipher)
        (cert_req_allowed e.consts s)
        mts
client12_flight e s t mts at old =
    from_cert e s s t mts
      (record { at = at; old = old; version = refl; cipher = refl; status = refl })
