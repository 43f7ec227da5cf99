-- ===== src/Sessions/Placing.antt =====
-- A session that is not in the list is put where its timeout belongs.
use openssl_3_0_bee2evp.Prelude.{
  ℕ, ◌≤◌, ◌≡◌, ◌∙◌, sym, ap, ap₂, subst, true, false, some, List, [], ◌∷◌, arith, length,
  Bool-cases, inl, inr,
}
use openssl_3_0_bee2evp.Sessions.{Link, null, head_addr, tail_addr, session, Cache, is_tail, put_in}
use openssl_3_0_bee2evp.Sessions.Linked.{
  same_link, prev_of, Joined, IsChain, or_tail, or_head, rest_of, links, IsList,
}
use openssl_3_0_bee2evp.Sessions.Spots.{is_from, is_to}
use openssl_3_0_bee2evp.Sessions.Place.{
  fits, fit, final, IsOrdered, fit-fits, last_fits, last_does_not_fit,
}
use openssl_3_0_bee2evp.Sessions.Added.{placed}
use openssl_3_0_bee2evp.Sessions.Ways.{
  put_in_alone, put_in_front, put_in_back, put_in_between, add_between_lem,
}

head_session : (l : Link) (y : ℕ) → or_tail l ≡ session y → l ≡ session y
head_session l y e = ground (arith, e)

pub tail_session : (l : Link) (y : ℕ) → or_head l ≡ session y → l ≡ session y
tail_session l y e = ground (arith, e)

head_null : (l : Link) → or_tail l ≡ tail_addr → is_tail l ≡ false → l ≡ null
head_null l e h = ground (arith, e, h)

pub final-prev_of :
    (c : Cache) (y : ℕ) (ys : List ℕ)
    → IsChain c (session y ∷ rest_of ys)
    → prev_of c tail_addr ≡ session (final y ys)
final-prev_of c y [] chain = chain.0.1
final-prev_of c y (z ∷ zs) chain = final-prev_of c z zs (chain.1)

-- A session outside an ordered list is put in.
module _ (n x : ℕ) (c : Cache) where
  put_in-inside :
      (y : ℕ) (ys : List ℕ) (p q : Link)
      → Joined c p q
      → is_from p ≡ true
      → is_to q ≡ true
      → same_link (session x) q ≡ false
      → q ≡ fit c x (y ∷ ys)
      → fits c x y ≡ false
      → IsChain c (links (y ∷ ys))
      → IsOrdered c (y ∷ ys)
      → length ys ≤ n
      → put_in n x c ≡ some (placed x p q c)
  put_in-inside y ys p tail_addr joined from to other at_q past chain ordered enough =
      let last = tail_session c.session_cache_tail (final y ys) (final-prev_of c y ys (chain.1)) in
      put_in_back x c n y (final y ys) (head_session c.session_cache_head y (chain.0.0)) last past
        (last_does_not_fit c x y ys (sym at_q))
      ∙ ap (λ p. some (placed x p tail_addr c)) (sym (final-prev_of c y ys (chain.1)) ∙ joined.1)
  put_in-inside y ys head_addr (session b) joined from to other at_q past chain ordered enough =
      let same : y ≡ b = ground (arith, chain.0.0, joined.0) in
      absurd (
        ground (
          arith,
          past,
          subst (λ b. fits c x b ≡ true) (sym same) (fit-fits c x (y ∷ ys) b (sym at_q)),
        ))
  put_in-inside y ys (session a) (session b) joined from to other at_q past chain ordered enough =
      put_in_between x c n y (final y ys) a b (head_session c.session_cache_head y (chain.0.0))
        (tail_session c.session_cache_tail (final y ys) (final-prev_of c y ys (chain.1))) past
        (last_fits c x y ys b ordered (sym at_q))
        (add_between_lem x c n y b ys (chain.1) enough (ground (arith, at_q, past))) (joined.1)
        (ground (arith, other))
  put_in-inside y ys p q joined from to other at_q past chain ordered enough =
      absurd (ground (arith, from, to))

  pub put_in-placed :
      (xs : List ℕ) (p q : Link)
      → Joined c p q
      → is_from p ≡ true
      → is_to q ≡ true
      → same_link (session x) q ≡ false
      → q ≡ fit c x xs
      → IsList c xs
      → IsOrdered c xs
      → length xs ≤ n
      → put_in n x c ≡ some (placed x p q c)
  put_in-placed [] p q joined from to other at_q is_list ordered enough =
      let before : p ≡ head_addr = sym (joined.1) ∙ ap (prev_of c) at_q ∙ is_list.chain.0.1 in
      put_in_alone x c n (head_null c.session_cache_head (is_list.chain.0.0) is_list.head_is)
      ∙ ap₂ (λ p q. some (placed x p q c)) (sym before) (sym at_q)
  put_in-placed (y ∷ ys) p q joined from to other at_q is_list ordered enough =
      elim (Bool-cases (fits c x y)) [
        | inl here ↦
            let chain = is_list.chain in
            let after : q ≡ session y = at_q ∙ ground (arith, here) in
            let before : p ≡ head_addr = sym (joined.1) ∙ ap (prev_of c) after ∙ chain.0.1 in
            put_in_front x c n y (final y ys) (head_session c.session_cache_head y (chain.0.0))
              (tail_session c.session_cache_tail (final y ys) (final-prev_of c y ys (chain.1))) here
            ∙ ap₂ (λ p q. some (placed x p q c)) (sym before) (sym after)
        | inr past ↦
            put_in-inside y ys p q joined from to other at_q past is_list.chain ordered
              (omega (arith, enough))
      ]
