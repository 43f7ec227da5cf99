-- ===== src/Sessions/Ways.antt =====
-- The ways of `SSL_SESSION_list_add` of ssl/ssl_sess.c, for a session that is not in the list.
use openssl_3_0_bee2evp.Prelude.{
  ℕ, zero, suc, ◌≤◌, ◌≡◌, ◌∙◌, refl, ap, true, false, some, List, [], ◌∷◌, ◌==◌, arith, length,
  Bool-cases, inl, inr,
}
use openssl_3_0_bee2evp.Sessions.{
  null, head_addr, tail_addr, session, Cache, write, add_between, put_before, put_in, put_in_order,
  put_first, put_last,
}
use openssl_3_0_bee2evp.Sessions.Linked.{IsChain, rest_of}
use openssl_3_0_bee2evp.Sessions.Place.{fits, fit}
use openssl_3_0_bee2evp.Sessions.Added.{placed}

module _ (x : ℕ) (c : Cache) where
  -- The ways of `put_in`.
  pub put_in_alone :
      (n : ℕ) → c.session_cache_head ≡ null → put_in n x c ≡ some (placed x head_addr tail_addr c)
  put_in_alone n e = ground (arith, e)

  put_in_ends :
      (n y d : ℕ)
      → c.session_cache_head ≡ session y
      → c.session_cache_tail ≡ session d
      → put_in n x c ≡ put_in_order n x (c.heap y) (c.heap d) c
  put_in_ends n y d h t = rw (h, t) refl

  put_first-placed :
      (b : ℕ)
      → c.session_cache_head ≡ session b
      → put_first x c ≡ some (placed x head_addr (session b) c)
  unfolding write
  put_first-placed b h = ground (arith, h)

  put_last-placed :
      (a : ℕ)
      → c.session_cache_tail ≡ session a
      → put_last x c ≡ some (placed x (session a) tail_addr c)
  unfolding write
  put_last-placed a t = ground (arith, t)

  put_before-placed :
      (a b : ℕ)
      → (c.heap b).prev ≡ session a
      → (b == x) ≡ false
      → put_before x (session b) c ≡ some (placed x (session a) (session b) c)
  unfolding write
  put_before-placed a b before other = ground (arith, before, other)

  pub put_in_front :
      (n b d : ℕ)
      → c.session_cache_head ≡ session b
      → c.session_cache_tail ≡ session d
      → fits c x b ≡ true
      → put_in n x c ≡ some (placed x head_addr (session b) c)
  put_in_front n b d h t e = put_in_ends n b d h t ∙ rw e (put_first-placed b h)

  pub put_in_back :
      (n y a : ℕ)
      → c.session_cache_head ≡ session y
      → c.session_cache_tail ≡ session a
      → fits c x y ≡ false
      → fits c x a ≡ false
      → put_in n x c ≡ some (placed x (session a) tail_addr c)
  put_in_back n y a h t e e' = put_in_ends n y a h t ∙ rw (e, e') (put_last-placed a t)

  pub put_in_between :
      (n y d a b : ℕ)
      → c.session_cache_head ≡ session y
      → c.session_cache_tail ≡ session d
      → fits c x y ≡ false
      → fits c x d ≡ true
      → add_between n x (c.heap y).next c ≡ put_before x (session b) c
      → (c.heap b).prev ≡ session a
      → (b == x) ≡ false
      → put_in n x c ≡ some (placed x (session a) (session b) c)
  put_in_between n y d a b h t e e' seek before other =
      put_in_ends n y d h t ∙ rw (e, e') (seek ∙ put_before-placed a b before other)

  stops :
      (n z : ℕ)
      → fits c x z ≡ true
      → add_between (suc n) x (session z) c ≡ put_before x (session z) c
  unfolding add_between
  stops n z here = rw here refl

  goes_on :
      (n z : ℕ)
      → fits c x z ≡ false
      → add_between (suc n) x (session z) c ≡ add_between n x (c.heap z).next c
  unfolding add_between
  goes_on n z past = rw past refl

  -- The loop finds the first session, after one, that does not time out later.
  pub add_between_lem :
      (n y b : ℕ) (ys : List ℕ)
      → IsChain c (session y ∷ rest_of ys)
      → length ys ≤ n
      → fit c x ys ≡ session b
      → add_between n x (c.heap y).next c ≡ put_before x (session b) c
  add_between_lem n y b [] chain enough e = absurd (ground (arith, e))
  add_between_lem zero y b (z ∷ zs) chain enough e = absurd (omega (arith, enough))
  add_between_lem (suc n) y b (z ∷ zs) chain enough e = elim (Bool-cases (fits c x z)) [
    | inl here ↦
        let same : session z ≡ session b = ground (arith, e, here) in
        ap (λ l. add_between (suc n) x l c) (chain.0.0)
        ∙ stops n z here
        ∙ ap (λ l. put_before x l c) same
    | inr past ↦
        ap (λ l. add_between (suc n) x l c) (chain.0.0)
        ∙ goes_on n z past
        ∙ add_between_lem n z b zs (chain.1) (omega (arith, enough)) (ground (arith, e, past))
  ]
