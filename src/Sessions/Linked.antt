-- ===== src/Sessions/Linked.antt =====
-- The doubly linked list of ssl/ssl_sess.c as a list of pointers, from the head to the tail.
use openssl_3_0_bee2evp.Prelude.{
  ℕ, ◌≡◌, ◌∙◌, Bool, true, false, ◌||◌, List, [], ◌∷◌, ◌++◌, ◌==◌, arith,
}
use openssl_3_0_bee2evp.Sessions.{
  Link, null, head_addr, tail_addr, session, Session, Cache, is_tail, is_head,
}

abbrev pub same_link : Link → Link → Bool
same_link null null = true
same_link head_addr head_addr = true
same_link tail_addr tail_addr = true
same_link (session a) (session b) = a == b
same_link _ _ = false

abbrev pub or_tail : Link → Link
or_tail null = tail_addr
or_tail l = l

abbrev pub or_head : Link → Link
or_head null = head_addr
or_head l = l

-- What comes after a pointer, and before it; the members of the context are the ends.
abbrev pub next_of : Cache → Link → Link
next_of c head_addr = or_tail c.session_cache_head
next_of c (session a) = (c.heap a).next
next_of c l = null

abbrev pub prev_of : Cache → Link → Link
prev_of c tail_addr = or_head c.session_cache_tail
prev_of c (session a) = (c.heap a).prev
prev_of c l = null

abbrev pub Joined : Cache → Link → Link → Type 0
Joined c p q = (next_of c p ≡ q) × (prev_of c q ≡ p)

-- Each pointer is joined to the next.
abbrev pub IsChain : Cache → List Link → Type 0
IsChain c [] = Unit
IsChain c (l ∷ []) = Unit
IsChain c (l ∷ m ∷ ls) = Joined c l m × IsChain c (m ∷ ls)

abbrev pub has : Link → List Link → Bool
has l [] = false
has l (m ∷ ls) = same_link l m || has l ls

-- No pointer occurs twice.
abbrev pub IsRepeatFree : List Link → Type 0
IsRepeatFree [] = Unit
IsRepeatFree (l ∷ ls) = (has l ls ≡ false) × IsRepeatFree ls

-- The same links, but for those after two pointers and those before two.
pub record SameBut (p p' q q' : Link) (c c' : Cache) : Type 0 where
  pub same_next :
      (l : Link) → same_link l p ≡ false → same_link l p' ≡ false → next_of c' l ≡ next_of c l
  pub same_prev :
      (l : Link) → same_link l q ≡ false → same_link l q' ≡ false → prev_of c' l ≡ prev_of c l

pub same_link-sym : (l m : Link) → same_link l m ≡ same_link m l
same_link-sym (session a) (session b) = ground arith
same_link-sym l m = ground arith

-- A part of the list that does not change: the links after its pointers, and before those but the
-- first.
module _ {p p' q q' : Link} {c c' : Cache} (same : SameBut p p' q q' c c') where
  Joined-same :
      (l m : Link)
      → same_link l p ≡ false
      → same_link l p' ≡ false
      → same_link m q ≡ false
      → same_link m q' ≡ false
      → Joined c l m
      → Joined c' l m
  Joined-same l m a b d e j = (same.same_next l a b ∙ j.0, same.same_prev m d e ∙ j.1)

  pub after_same :
      (l : Link) (ls : List Link)
      → has p (l ∷ ls) ≡ false
      → has p' (l ∷ ls) ≡ false
      → has q ls ≡ false
      → has q' ls ≡ false
      → IsChain c (l ∷ ls)
      → IsChain c' (l ∷ ls)
  after_same l [] a b d e chain = tt
  after_same l (m ∷ ls) a b d e (j, chain) = (
    Joined-same l m (ground (arith, a, same_link-sym p l)) (ground (arith, b, same_link-sym p' l))
        (ground (arith, d, same_link-sym q m)) (ground (arith, e, same_link-sym q' m)) j,
    after_same m ls (ground (arith, a)) (ground (arith, b)) (ground (arith, d)) (ground (arith, e))
        chain,
  )

  -- A part before a pointer from which on the list is known.
  pub before_same :
      (ls : List Link) (m : Link) (old new : List Link)
      → has p ls ≡ false
      → has p' ls ≡ false
      → has q (ls ++ (m ∷ [])) ≡ false
      → has q' (ls ++ (m ∷ [])) ≡ false
      → IsChain c (ls ++ (m ∷ old))
      → IsChain c' (m ∷ new)
      → IsChain c' (ls ++ (m ∷ new))
  before_same [] m old new a b d e chain done = done
  before_same (l ∷ []) m old new a b d e chain done = (
    Joined-same l m (ground (arith, a, same_link-sym p l)) (ground (arith, b, same_link-sym p' l))
        (ground (arith, d, same_link-sym q m)) (ground (arith, e, same_link-sym q' m)) (chain.0),
    done,
  )
  before_same (l ∷ k ∷ ls) m old new a b d e chain done = (
    Joined-same l k (ground (arith, a, same_link-sym p l)) (ground (arith, b, same_link-sym p' l))
        (ground (arith, d, same_link-sym q k)) (ground (arith, e, same_link-sym q' k)) (chain.0),
    before_same (k ∷ ls) m old new (ground (arith, a)) (ground (arith, b)) (ground (arith, d))
        (ground (arith, e)) (chain.1) done,
  )

-- The pointers of a list of sessions, after the first.
abbrev pub rest_of : List ℕ → List Link
rest_of [] = tail_addr ∷ []
rest_of (x ∷ xs) = session x ∷ rest_of xs

abbrev pub links : List ℕ → List Link
links xs = head_addr ∷ rest_of xs

-- The list of a context holds these sessions, each once, from the head to the tail. A session that is
-- not in it has no pointers and no owner.
pub record IsList (c : Cache) (xs : List ℕ) : Type 0 where
  pub chain : IsChain c (links xs)
  pub repeat_free : IsRepeatFree (links xs)
  pub head_is : is_tail c.session_cache_head ≡ false
  pub tail_is : is_head c.session_cache_tail ≡ false
  pub owned : (a : ℕ) → (c.heap a).owner ≡ has (session a) (rest_of xs)
  pub unlisted :
      (a : ℕ)
      → has (session a) (rest_of xs) ≡ false
      → ((c.heap a).next ≡ null) × ((c.heap a).prev ≡ null)

-- A session but for the pointers of the list.
abbrev pub bare : Session → Session
bare s = record s { prev = null; next = null; owner = false }

-- Of every session, all but the pointers of the list and `owner` is what it was.
pub record SameRest (c c' : Cache) : Type 0 where
  pub same : (a : ℕ) → bare (c'.heap a) ≡ bare (c.heap a)
