-- ===== src/Sessions/Removed.antt =====
-- What `SSL_SESSION_list_remove` of ssl/ssl_sess.c stores, by what comes before the session and after it.
use openssl_3_0_bee2evp.Prelude.{ℕ, ◌≡◌, refl, true, false, some, ◌==◌, arith, if◌then◌else◌}
use openssl_3_0_bee2evp.Sessions.{
  Link, null, head_addr, tail_addr, session, Cache, write, is_tail, is_head, list_remove,
}
use openssl_3_0_bee2evp.Sessions.Spots.{is_from, is_to}
use openssl_3_0_bee2evp.Sessions.Linked.{same_link, next_of, prev_of, Joined, SameBut, SameRest}

abbrev clear : ℕ → Cache → Cache
clear x = write x (λ s. record s { prev = null; next = null; owner = false })

-- The cache after a removal, by what is before the session and after it.
abbrev pub removed : ℕ → Link → Link → Cache → Cache
removed x head_addr (session b) c =
    clear x
      (write b (λ s. record s { prev = head_addr }) (record c { session_cache_head = session b }))
removed x (session a) tail_addr c =
    clear x
      (write a (λ s. record s { next = tail_addr }) (record c { session_cache_tail = session a }))
removed x (session a) (session b) c =
    clear x (
      write a (λ s. record s { next = session b }) (write b (λ s. record s { prev = session a }) c))
removed x p q c = clear x (record c { session_cache_head = null; session_cache_tail = null })

module _ (x : ℕ) (c : Cache) where
  pub list_remove-removed :
      (p q : Link)
      → (c.heap x).prev ≡ p
      → (c.heap x).next ≡ q
      → is_from p ≡ true
      → is_to q ≡ true
      → same_link p (session x) ≡ false
      → same_link q (session x) ≡ false
      → list_remove x c ≡ some (removed x p q c)
  unfolding list_remove write
  list_remove-removed head_addr tail_addr before after from to a b = ground (arith, before, after)
  list_remove-removed head_addr (session n) before after from to a b =
      ground (arith, before, after, b)
  list_remove-removed (session m) tail_addr before after from to a b =
      ground (arith, before, after, a)
  list_remove-removed (session m) (session n) before after from to a b =
      ground (arith, before, after, a, b)
  list_remove-removed p q before after from to a b = absurd (ground (arith, from, to))

  pub removed-Joined :
      (p q : Link)
      → is_from p ≡ true
      → is_to q ≡ true
      → same_link p (session x) ≡ false
      → same_link q (session x) ≡ false
      → Joined (removed x p q c) p q
  unfolding write
  removed-Joined head_addr tail_addr from to a b = (refl, refl)
  removed-Joined head_addr (session n) from to a b = (refl, ground (arith, b))
  removed-Joined (session m) tail_addr from to a b = (ground (arith, a), refl)
  removed-Joined (session m) (session n) from to a b = (ground (arith, a, b), ground (arith, a, b))
  removed-Joined p q from to a b = absurd (ground (arith, from, to))

  removed-next_of :
      (p q : Link)
      → is_from p ≡ true
      → is_to q ≡ true
      → (l : Link) → same_link l p ≡ false
      → same_link l (session x) ≡ false
      → next_of (removed x p q c) l ≡ next_of c l
  unfolding write
  removed-next_of head_addr tail_addr from to l e e' = ground (arith, e, e')
  removed-next_of head_addr (session n) from to l e e' = ground (arith, e, e')
  removed-next_of (session m) tail_addr from to l e e' = ground (arith, e, e')
  removed-next_of (session m) (session n) from to l e e' = ground (arith, e, e')
  removed-next_of p q from to l e e' = absurd (ground (arith, from, to))

  removed-prev_of :
      (p q : Link)
      → is_from p ≡ true
      → is_to q ≡ true
      → (l : Link) → same_link l q ≡ false
      → same_link l (session x) ≡ false
      → prev_of (removed x p q c) l ≡ prev_of c l
  unfolding write
  removed-prev_of head_addr tail_addr from to l e e' = ground (arith, e, e')
  removed-prev_of head_addr (session n) from to l e e' = ground (arith, e, e')
  removed-prev_of (session m) tail_addr from to l e e' = ground (arith, e, e')
  removed-prev_of (session m) (session n) from to l e e' = ground (arith, e, e')
  removed-prev_of p q from to l e e' = absurd (ground (arith, from, to))

  pub removed-SameBut :
      (p q : Link)
      → is_from p ≡ true
      → is_to q ≡ true
      → SameBut p (session x) q (session x) c (removed x p q c)
  removed-SameBut p q from to = record {
    same_next = removed-next_of p q from to;
    same_prev = removed-prev_of p q from to;
  }

-- The members of the context, the owners and the timeouts after a removal.
module _ (x : ℕ) (c : Cache) where
  pub removed-ends :
      (p q : Link)
      → is_tail c.session_cache_head ≡ false
      → is_head c.session_cache_tail ≡ false
      → (is_tail (removed x p q c).session_cache_head ≡ false)
        × (is_head (removed x p q c).session_cache_tail ≡ false)
  unfolding write
  removed-ends (session m) tail_addr h t = ground (arith, h, t)
  removed-ends (session m) (session n) h t = ground (arith, h, t)
  removed-ends p q h t = ground (arith, h, t)

  pub removed-owner :
      (p q : Link) (a : ℕ)
      → ((removed x p q c).heap a).owner ≡ (if a == x then false else (c.heap a).owner)
  unfolding write
  removed-owner p q a = ground arith

  pub removed-null :
      (p q : Link) (a : ℕ)
      → (a == x) ≡ true
      → (((removed x p q c).heap a).next ≡ null) × (((removed x p q c).heap a).prev ≡ null)
  unfolding write
  removed-null p q a e = ground (arith, e)

  pub removed-SameRest : (p q : Link) → SameRest c (removed x p q c)
  unfolding write
  removed-SameRest p q = record { same = λ a. ground arith }

  pub list_remove-absent : (c.heap x).next ≡ null → list_remove x c ≡ some c
  unfolding list_remove
  list_remove-absent e = ground (arith, e)
