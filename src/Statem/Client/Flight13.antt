-- ===== src/Statem/Client/Flight13.antt =====
-- The messages that a TLSv1.3 client accepts between ServerHello and the server's Finished.
use openssl_3_0_bee2evp.Prelude.{
  ◌≡◌, refl, ap₂, ◌∙◌, ◌⊎◌, inl, inr, Bool, true, false, List, [], ◌∷◌, arith,
}
use openssl_3_0_bee2evp.Ssl.{
  HandState, cr_srvr_hello, cr_cert, cr_cert_req, cr_finished, cr_encrypted_extensions,
  cr_cert_vrfy, MsgType, encrypted_extensions, certificate, certificate_request, certificate_verify,
  finished, Env, Ssl, is_tls13,
}
use openssl_3_0_bee2evp.Statem.{finish_read}
use openssl_3_0_bee2evp.Statem.Trace.{
  Reads, Phase, Leads, Stops, Suffix, from_last, from_each, from, exactly,
}
use openssl_3_0_bee2evp.Statem.Client.Read.{
  client13_read_from, client13_read_transition, client_read_transition,
}

-- The messages of the server's flight after EncryptedExtensions, by whether it resumes a session.
abbrev pub IsAuthentication : Bool → List MsgType → Type 0
IsAuthentication true mts = mts ≡ finished ∷ []
IsAuthentication false mts =
    (mts ≡ certificate ∷ certificate_verify ∷ finished ∷ [])
    ⊎ (mts ≡ certificate_request ∷ certificate ∷ certificate_verify ∷ finished ∷ [])

module _ (e : Env) where
  -- What processing a message of this flight leaves alone.
  pub record Keeps13 (s t : Ssl) : Type 0 where
    pub same_state : t.statem.hand_state ≡ s.statem.hand_state
    pub same_version : is_tls13 e.consts t ≡ is_tls13 e.consts s
    pub same_hit : t.hit ≡ s.hit

  -- A TLSv1.3 client in a given state, resuming a session or not.
  pub record Is13 (hit : Bool) (h : HandState) (s : Ssl) : Type 0 where
    pub at : s.statem.hand_state ≡ h
    pub new : is_tls13 e.consts s ≡ true
    pub hits : s.hit ≡ hit

  keeps_at : (hit : Bool) (h : HandState) (s t : Ssl) → Is13 hit h s → Keeps13 s t → Is13 hit h t
  keeps_at hit h s t i k = record {
    at = k.same_state ∙ i.at;
    new = k.same_version ∙ i.new;
    hits = k.same_hit ∙ i.hits;
  }

  abbrev phase : Bool → Phase
  phase hit = record {
    transition = client_read_transition e;
    Keeps = Keeps13;
    At = Is13 hit;
    at_state = λ h s i. i.at;
    keeps_at = keeps_at hit;
    last = cr_finished;
  }

  -- One read in TLSv1.3.
  step :
      (hit : Bool) (h : HandState) (s s' : Ssl) (mt : MsgType)
      → Is13 hit h s
      → client_read_transition e s mt ≡ (s', true)
      → client13_read_from e h mt s ≡ (s', true)
  unfolding client_read_transition client13_read_transition finish_read
  step hit h s s' mt i r = ground arith

  module _ (hit : Bool) where
    srvr_hello-Leads : Leads (phase hit) cr_srvr_hello encrypted_extensions cr_encrypted_extensions
    unfolding client13_read_from
    srvr_hello-Leads s s' mt i r = ground (arith, step hit cr_srvr_hello s s' mt i r)

    cert_vrfy-Leads : Leads (phase hit) cr_cert_vrfy finished cr_finished
    unfolding client13_read_from
    cert_vrfy-Leads s s' mt i r = ground (arith, step hit cr_cert_vrfy s s' mt i r)

    cert-Leads : Leads (phase hit) cr_cert certificate_verify cr_cert_vrfy
    unfolding client13_read_from
    cert-Leads s s' mt i r = ground (arith, step hit cr_cert s s' mt i r)

    cert_req-Leads : Leads (phase hit) cr_cert_req certificate cr_cert
    unfolding client13_read_from
    cert_req-Leads s s' mt i r = ground (arith, step hit cr_cert_req s s' mt i r)

    finished-Stops : Stops (phase hit) cr_finished
    unfolding client13_read_from
    finished-Stops s s' mt i r = ground (arith, step hit cr_finished s s' mt i r)

  resumed-Leads : Leads (phase true) cr_encrypted_extensions finished cr_finished
  unfolding client13_read_from
  resumed-Leads s s' mt i r = ground (arith, step true cr_encrypted_extensions s s' mt i r)

  full-Leads :
      (s s' : Ssl) (mt : MsgType)
      → Is13 false cr_encrypted_extensions s
      → client_read_transition e s mt ≡ (s', true)
      → ((mt ≡ certificate_request) × Is13 false cr_cert_req s')
        ⊎ ((mt ≡ certificate) × Is13 false cr_cert s')
  unfolding client13_read_from
  full-Leads s s' mt i r = ground (arith, step false cr_encrypted_extensions s s' mt i r)

  from_cert : Suffix (phase false) cr_cert (λ mts. mts ≡ certificate_verify ∷ finished ∷ [])
  from_cert =
      exactly (phase false) (finished ∷ []) (λ p. cc) (cert-Leads false)
        (exactly (phase false) [] (λ p. cc) (cert_vrfy-Leads false)
          (from_last (phase false) (finished-Stops false)))

  from_cert_req :
      Suffix
        (phase false)
        cr_cert_req
        (λ mts. mts ≡ certificate ∷ certificate_verify ∷ finished ∷ [])
  from_cert_req =
      exactly (phase false) (certificate_verify ∷ finished ∷ []) (λ p. cc) (cert_req-Leads false)
        from_cert

  from_extensions : (hit : Bool) → Suffix (phase hit) cr_encrypted_extensions (IsAuthentication hit)
  from_extensions true =
      exactly (phase true) [] (λ p. cc) resumed-Leads (from_last (phase true) (finished-Stops true))
  from_extensions false =
      from_each (phase false) cr_encrypted_extensions (IsAuthentication false) (λ p. cc)
        λ s s' u t mt rest i r k more f. elim (full-Leads s s' mt i r) [
          | inl (is_m, i') ↦
              inr (
                ap₂ ◌∷◌ is_m (from_cert_req u t rest (keeps_at false cr_cert_req s' u i' k) more f))
          | inr (is_m, i') ↦
              inl (ap₂ ◌∷◌ is_m (from_cert u t rest (keeps_at false cr_cert s' u i' k) more f))
        ]

  -- A TLSv1.3 client that has read the ServerHello and comes to the state after the server's
  -- Finished has read EncryptedExtensions first, and then, unless it resumes a session, Certificate
  -- and CertificateVerify, with at most a CertificateRequest before them, then Finished, and nothing
  -- else. Processing a message is assumed to keep the state, the version and whether the session is
  -- resumed.
  pub client13_flight :
      (hit : Bool) (s t : Ssl) (mts : List MsgType)
      → Is13 hit cr_srvr_hello s
      → Reads (client_read_transition e) Keeps13 s mts t
      → t.statem.hand_state ≡ cr_finished
      → (rest : List MsgType) × (mts ≡ encrypted_extensions ∷ rest) × IsAuthentication hit rest
  client13_flight hit =
      from (phase hit) (IsAuthentication hit) _ (λ p. cc) (srvr_hello-Leads hit)
        (λ rest a. (rest, refl, a)) (from_extensions hit)
