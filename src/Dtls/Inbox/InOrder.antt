-- ===== src/Dtls/Inbox/InOrder.antt =====
-- The message that is expected is delivered as soon as it is complete.
use openssl_3_0_bee2evp.Prelude.{
  ◌∙◌, ap, ap₂, sym, ℕ, ◌≤◌, ◌<◌, ◌≡◌, refl, true, false, some, List, [], ◌∷◌, leb, ◌==◌,
  if◌then◌else◌, if-eq, Bool-cases, inl, inr, arith,
}
use openssl_3_0_bee2evp.Dtls.Pqueue.{Pitem, find}
use openssl_3_0_bee2evp.Dtls.Pqueue.Order.{IsSorted, Above, Above-trans}
use openssl_3_0_bee2evp.Dtls.Pqueue.Find.{find-cons, find-Above}
use openssl_3_0_bee2evp.Dtls.Reassembly.{HmFragment}
use openssl_3_0_bee2evp.Dtls.Inbox.{Inbox, Calls}
use openssl_3_0_bee2evp.Dtls.Inbox.Receive.{
  may_restart, Front, at_head, front, deliver, retrieve_front, is_assembled,
  retrieve_buffered_fragment,
}
use openssl_3_0_bee2evp.Dtls.Inbox.Items.{AreItems, an_item, find-priority, find-IsItem, some_same}
use openssl_3_0_bee2evp.Dtls.Inbox.Limits.{IsSound}

-- The items behind a number, in a queue that is in order.
abbrev pub behind : ℕ → List (Pitem HmFragment) → List (Pitem HmFragment)
behind n [] = []
behind n (x ∷ q) = if leb x.priority n then behind n q else x ∷ q

Above-behind : (n : ℕ) (q : List (Pitem HmFragment)) → Above n q → behind n q ≡ q
Above-behind n [] a = refl
Above-behind n (x ∷ q) a = ground (arith, a.0)

-- An item that is found is not below the first of the queue.
found_low :
    (x item : Pitem HmFragment) (q : List (Pitem HmFragment)) (n : ℕ)
    → IsSorted (x ∷ q)
    → find (x ∷ q) n ≡ some item
    → x.priority ≤ n
found_low x item q n sorted e = elim (Bool-cases (leb x.priority n)) [
  | inl low ↦ ground (arith, low)
  | inr high ↦
      let above : n ≤ x.priority = ground (arith, high) in
      absurd (
        ground (
          arith,
          high,
          e,
          find-cons x q n,
          find-Above n q (Above-trans n x.priority q above (sorted.0)),
        ))
]

front-head :
    (s : Inbox) (x : Pitem HmFragment) (q : List (Pitem HmFragment))
    → x.value.msg_header.seq ≡ s.handshake_read_seq
    → front s (x ∷ q) ≡ at_head x q false
unfolding front
front-head s x [] e = ground (arith, e)
front-head s x (y ∷ q) e = ground (arith, e)

front-stale :
    (s : Inbox) (x y : Pitem HmFragment) (q : List (Pitem HmFragment))
    → x.value.msg_header.seq < s.handshake_read_seq
    → (may_restart x.value.msg_header.seq s ≡ true → y.value.msg_header.seq ≡ s.handshake_read_seq)
    → front s (x ∷ y ∷ q) ≡ front s (y ∷ q)
unfolding front
front-stale s x y q low again = elim (Bool-cases (may_restart x.value.msg_header.seq s)) [
  | inl restarts ↦
      let next = again restarts in ground (arith, low, restarts, next, front-head s y q next)
  | inr stale ↦ rw stale (ground (arith, low))
]

front-find :
    (s : Inbox) (max : ℕ) (q : List (Pitem HmFragment)) (item : Pitem HmFragment)
    → IsSorted q
    → AreItems s.handshake_read_seq max q
    → find q s.handshake_read_seq ≡ some item
    → front s q ≡ at_head item (behind s.handshake_read_seq q) false
front-find s max [] item sorted items e = absurd (unfold find in ground (arith, e))
front-find s max (x ∷ q) item sorted (an_item _ _ i is) e =
    let n = s.handshake_read_seq in
    if-eq (x.priority == n)
      (λ here e'.
        let at_n : x.priority ≡ n = ground (arith, here) in
        let above : Above n q = Above-trans n x.priority q (ground (arith, at_n)) (sorted.0) in
        let rest : behind n (x ∷ q) ≡ q = ground (arith, at_n, Above-behind n q above) in
        front-head s x q (sym i.numbered ∙ at_n)
        ∙ ap₂ (λ y p. at_head y p false) (some_same x item e') (sym rest))
      (λ other e'.
        let low = found_low x item q n sorted e in
        let below : x.priority < n = ground (arith, low, other) in
        let rest : behind n (x ∷ q) ≡ behind n q = ground (arith, below) in
        skip q sorted is below e' (front-find s max q item (sorted.1) is e')
        ∙ ap (λ p. at_head item p false) (sym rest))
      (sym (find-cons x q n) ∙ e)
  where
    skip :
        (q : List (Pitem HmFragment))
        → IsSorted (x ∷ q)
        → AreItems s.handshake_read_seq max q
        → x.priority < s.handshake_read_seq
        → find q s.handshake_read_seq ≡ some item
        → front s q ≡ at_head item (behind s.handshake_read_seq q) false
        → front s (x ∷ q) ≡ at_head item (behind s.handshake_read_seq q) false
    skip [] sorted is below e later = absurd (unfold find in ground (arith, e))
    skip (y ∷ rest) sorted (an_item _ _ j js) below e later =
        let low = found_low y item rest s.handshake_read_seq (sorted.1) e in
        let higher = sorted.0.0 in
        front-stale s x y rest (ground (arith, i.numbered, below))
          (λ restarts. ground (arith, restarts, i.numbered, j.numbered, low, higher))
        ∙ later

unfold_retrieve :
    (k : Calls) (s : Inbox) (f : Front)
    → front s s.buffered_messages ≡ f
    → retrieve_buffered_fragment k s ≡ retrieve_front k f s
unfolding retrieve_buffered_fragment
unfold_retrieve k s f e = ap (λ f. retrieve_front k f s) e

retrieve_assembled :
    (k : Calls) (s : Inbox) (item : Pitem HmFragment) (rest : List (Pitem HmFragment))
    → is_assembled item.value ≡ true
    → item.value.msg_header.seq ≡ s.handshake_read_seq
    → retrieve_front k (at_head item rest false) s
      ≡ deliver k item.value false (record s { buffered_messages = rest })
retrieve_assembled k s item rest whole expected = ground (arith, whole, expected)

-- If the queue is as a pass of `dtls_get_reassembled_message` keeps it and holds the message with the
-- number that is expected, complete, then `dtls1_retrieve_buffered_fragment` hands on this message,
-- through the checks of `dtls1_preprocess_fragment`; the queue keeps the messages with higher numbers
-- and no other.
pub retrieve-expected :
    (k : Calls) (s : Inbox) (item : Pitem HmFragment)
    → IsSound k s
    → find s.buffered_messages s.handshake_read_seq ≡ some item
    → is_assembled item.value ≡ true
    → retrieve_buffered_fragment k s
      ≡ deliver k item.value false
          (record s { buffered_messages = behind s.handshake_read_seq s.buffered_messages })
retrieve-expected k s item sound found whole =
    let n = s.handshake_read_seq in
    let i = find-IsItem n _ s.buffered_messages n item sound.items found in
    unfold_retrieve k s _ (front-find s _ s.buffered_messages item sound.sorted sound.items found)
    ∙ retrieve_assembled k s item (behind n s.buffered_messages) whole
        (sym i.numbered ∙ find-priority s.buffered_messages n item found)
