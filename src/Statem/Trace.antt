-- ===== src/Statem/Trace.antt =====
-- Sequences of messages that a read transition allows, one after the other
-- (the reading side of ssl/statem/statem.c: transition, then processing, then the next message).
use openssl_3_0_bee2evp.Prelude.{◌≡◌, refl, sym, ap, ◌∙◌, ◌≢◌, Bool, true, List, [], ◌∷◌}
use openssl_3_0_bee2evp.Ssl.{HandState, MsgType, Ssl}

module _ (transition : Ssl → MsgType → Ssl × Bool) (Keeps : Ssl → Ssl → Type 0) where
  -- Each message is allowed by the transition, and then processed, which may change what `Keeps`
  -- does not forbid.
  pub data Reads : Ssl → List MsgType → Ssl → Type 0 where
    done : {s : Ssl} → Reads s [] s
    read :
        {s s' u t : Ssl} {mt : MsgType} {mts : List MsgType}
        → transition s mt ≡ (s', true)
        → Keeps s' u
        → Reads u mts t
        → Reads s (mt ∷ mts) t

-- A phase of a handshake: the transition, what processing keeps, what is known of the connection in
-- each state, and the state at which the phase ends.
pub record Phase : Type 1 where
  pub transition : Ssl → MsgType → Ssl × Bool
  pub Keeps : Ssl → Ssl → Type 0
  pub At : HandState → Ssl → Type 0
  pub at_state : (h : HandState) (s : Ssl) → At h s → s.statem.hand_state ≡ h
  pub keeps_at : (h : HandState) (s t : Ssl) → At h s → Keeps s t → At h t
  pub last : HandState

module _ (p : Phase) where
  open p use {transition, Keeps, At, at_state, keeps_at, last}

  -- In state `h` the only message allowed is `m`, and it leads to `h'`.
  abbrev pub Leads : HandState → MsgType → HandState → Type 0
  Leads h m h' =
      (s s' : Ssl) (mt : MsgType) → At h s → transition s mt ≡ (s', true) → (mt ≡ m) × At h' s'

  -- In state `h` no message is allowed.
  abbrev pub Stops : HandState → Type 0
  Stops h = (s s' : Ssl) (mt : MsgType) → At h s → transition s mt ≡ (s', true) → ⊥

  -- Whatever is read from state `h` to the end of the phase satisfies `P`.
  abbrev pub Suffix : HandState → (List MsgType → Type 0) → Type 0
  Suffix h P =
      (s t : Ssl) (mts : List MsgType)
      → At h s
      → Reads transition Keeps s mts t
      → t.statem.hand_state ≡ last
      → P mts

  pub from_last : Stops last → Suffix last (λ mts. mts ≡ [])
  from_last stops s t mts i done f = refl
  from_last stops s t mts i (read {s' = s'} {mt = mt} r k rest) f = absurd (stops s s' mt i r)

  -- The rule for any state that is not the last.
  pub from_each :
      (h : HandState) (Q : List MsgType → Type 0)
      → h ≢ last
      → ((s s' u t : Ssl) (mt : MsgType) (rest : List MsgType)
          → At h s
          → transition s mt ≡ (s', true)
          → Keeps s' u
          → Reads transition Keeps u rest t
          → t.statem.hand_state ≡ last
          → Q (mt ∷ rest))
      → Suffix h Q
  from_each h Q ne next s t mts i done f = absurd (ne (sym (at_state h s i) ∙ f))
  from_each h Q ne next s t mts i (read {s' = s'} {u = u} {mt = mt} {mts = rest} r k more) f =
      next s s' u t mt rest i r k more f

  -- The rule for a state with a single successor.
  pub from :
      {h : HandState} {m : MsgType} {h' : HandState} (P Q : List MsgType → Type 0)
      → h ≢ last
      → Leads h m h'
      → ((rest : List MsgType) → P rest → Q (m ∷ rest))
      → Suffix h' P
      → Suffix h Q
  from {h} {m} {h'} P Q ne leads put next = from_each h Q ne λ s s' u t mt rest i r k more f.
      let (is_m, i') = leads s s' mt i r in
      rw is_m (put rest (next u t rest (keeps_at h' s' u i' k) more f))

  pub exactly :
      {h : HandState} {m : MsgType} {h' : HandState} (xs : List MsgType)
      → h ≢ last
      → Leads h m h'
      → Suffix h' (λ mts. mts ≡ xs)
      → Suffix h (λ mts. mts ≡ m ∷ xs)
  exactly {m = m} xs ne leads =
      from (λ mts. mts ≡ xs) (λ mts. mts ≡ m ∷ xs) ne leads (λ rest q. ap (λ x. m ∷ x) q)
