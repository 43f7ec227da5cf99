-- ===== src/Sessions/Added.antt =====
-- What `SSL_SESSION_list_add` of ssl/ssl_sess.c stores, by what comes before the session and after it.
use openssl_3_0_bee2evp.Prelude.{ℕ, ◌≡◌, true, false, ◌==◌, arith, if◌then◌else◌}
use openssl_3_0_bee2evp.Sessions.{
  Link, head_addr, tail_addr, session, Cache, write, is_tail, is_head,
}
use openssl_3_0_bee2evp.Sessions.Linked.{same_link, next_of, prev_of, Joined, SameBut, SameRest}
use openssl_3_0_bee2evp.Sessions.Spots.{is_from, is_to}

-- The cache after `put_in`.
abbrev pub placed : ℕ → Link → Link → Cache → Cache
placed x head_addr (session b) c =
    record (write x (λ s. record s { prev = head_addr })
      (write b (λ s. record s { prev = session x })
        (write x (λ s. record s { next = session b }) c))) { session_cache_head = session x }
placed x (session a) tail_addr c =
    record (write x (λ s. record s { next = tail_addr })
      (write a (λ s. record s { next = session x })
        (write x (λ s. record s { prev = session a }) c))) { session_cache_tail = session x }
placed x (session a) (session b) c =
    write b (λ s. record s { prev = session x })
      (write a (λ s. record s { next = session x })
        (write x (λ s. record s { prev = session a })
          (write x (λ s. record s { next = session b }) c)))
placed x p q c = record (write x (λ s. record s { prev = head_addr; next = tail_addr }) c) {
  session_cache_head = session x;
  session_cache_tail = session x;
}

-- The cache after `SSL_SESSION_list_add`.
abbrev pub added : ℕ → Link → Link → Cache → Cache
added x p q c = write x (λ s. record s { owner = true }) (placed x p q c)

module _ (x : ℕ) (c : Cache) where
  pub added-Joined :
      (p q : Link)
      → is_from p ≡ true
      → is_to q ≡ true
      → same_link p (session x) ≡ false
      → same_link q (session x) ≡ false
      → Joined (added x p q c) p (session x) × Joined (added x p q c) (session x) q
  unfolding write
  added-Joined head_addr tail_addr from to a b = ground arith
  added-Joined head_addr (session n) from to a b = ground (arith, b)
  added-Joined (session m) tail_addr from to a b = ground (arith, a)
  added-Joined (session m) (session n) from to a b = ground (arith, a, b)
  added-Joined p q from to a b = absurd (ground (arith, from, to))

  added-next_of :
      (p q : Link)
      → is_from p ≡ true
      → is_to q ≡ true
      → (l : Link) → same_link l p ≡ false
      → same_link l (session x) ≡ false
      → next_of (added x p q c) l ≡ next_of c l
  unfolding write
  added-next_of head_addr tail_addr from to l e e' = ground (arith, e, e')
  added-next_of head_addr (session n) from to l e e' = ground (arith, e, e')
  added-next_of (session m) tail_addr from to l e e' = ground (arith, e, e')
  added-next_of (session m) (session n) from to l e e' = ground (arith, e, e')
  added-next_of p q from to l e e' = absurd (ground (arith, from, to))

  added-prev_of :
      (p q : Link)
      → is_from p ≡ true
      → is_to q ≡ true
      → (l : Link) → same_link l q ≡ false
      → same_link l (session x) ≡ false
      → prev_of (added x p q c) l ≡ prev_of c l
  unfolding write
  added-prev_of head_addr tail_addr from to l e e' = ground (arith, e, e')
  added-prev_of head_addr (session n) from to l e e' = ground (arith, e, e')
  added-prev_of (session m) tail_addr from to l e e' = ground (arith, e, e')
  added-prev_of (session m) (session n) from to l e e' = ground (arith, e, e')
  added-prev_of p q from to l e e' = absurd (ground (arith, from, to))

  pub added-SameBut :
      (p q : Link)
      → is_from p ≡ true
      → is_to q ≡ true
      → SameBut p (session x) q (session x) c (added x p q c)
  added-SameBut p q from to = record {
    same_next = added-next_of p q from to;
    same_prev = added-prev_of p q from to;
  }

  pub added-ends :
      (p q : Link)
      → is_tail c.session_cache_head ≡ false
      → is_head c.session_cache_tail ≡ false
      → (is_tail (added x p q c).session_cache_head ≡ false)
        × (is_head (added x p q c).session_cache_tail ≡ false)
  unfolding write
  added-ends (session m) tail_addr h t = ground (arith, h, t)
  added-ends (session m) (session n) h t = ground (arith, h, t)
  added-ends head_addr (session n) h t = ground (arith, h, t)
  added-ends p q h t = ground (arith, h, t)

  pub added-owner :
      (p q : Link) (a : ℕ)
      → ((added x p q c).heap a).owner ≡ (if a == x then true else (c.heap a).owner)
  unfolding write
  added-owner p q a = ground arith

  pub added-SameRest : (p q : Link) → SameRest c (added x p q c)
  unfolding write
  added-SameRest p q = record { same = λ a. ground arith }
