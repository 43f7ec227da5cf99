-- ===== src/Sessions/Context/Held.antt =====
-- The invariant of a cache, and what leaves it alone.
use openssl_3_0_bee2evp.Prelude.{
  ℕ, ◌≡◌, ◌∙◌, refl, sym, ap, subst, true, false, List, [], ◌∷◌, ◌==◌, length, arith, Bool-cases,
  inl, inr,
}
use openssl_3_0_bee2evp.Sessions.{
  Link, null, head_addr, tail_addr, session, Session, Cache, write, at_least, timeoutcmp, is_tail,
  is_head,
}
use openssl_3_0_bee2evp.Sessions.Linked.{or_tail, or_head, next_of, prev_of, IsChain, links, IsList}
use openssl_3_0_bee2evp.Sessions.Place.{fits, AreEarlier, IsOrdered}
use openssl_3_0_bee2evp.Sessions.Remove.{delete}
use openssl_3_0_bee2evp.Sessions.Context.{
  key, Table, Context, change, free, up_ref, unresumable, is_empty,
}
use openssl_3_0_bee2evp.Sessions.Context.Index.{listed, IsIndexed}

-- The list holds the sessions `xs`, in the order of their timeouts, and the table the sessions `ys`.
pub record IsHeld {H : Type 0} (t : Table H) (g : Context H) (xs ys : List ℕ) : Type 0 where
  pub is_list : IsList g.cache xs
  pub ordered : IsOrdered g.cache xs
  pub indexed : IsIndexed t g.cache g.sessions ys

-- List and table hold the same sessions.
abbrev pub IsCache : {H : Type 0} → Table H → Context H → List ℕ → Type 0
IsCache t g xs = IsHeld t g xs xs

-- The pointers of the list are the same.
pub record SameLinks (c c' : Cache) : Type 0 where
  pub head_same : c'.session_cache_head ≡ c.session_cache_head
  pub tail_same : c'.session_cache_tail ≡ c.session_cache_tail
  pub next_same : (a : ℕ) → (c'.heap a).next ≡ (c.heap a).next
  pub prev_same : (a : ℕ) → (c'.heap a).prev ≡ (c.heap a).prev
  pub owner_same : (a : ℕ) → (c'.heap a).owner ≡ (c.heap a).owner

module _ (c c' : Cache) (same : SameLinks c c') where
  next_of-same : (l : Link) → next_of c' l ≡ next_of c l
  next_of-same head_addr = ap or_tail same.head_same
  next_of-same (session a) = same.next_same a
  next_of-same null = refl
  next_of-same tail_addr = refl

  prev_of-same : (l : Link) → prev_of c' l ≡ prev_of c l
  prev_of-same tail_addr = ap or_head same.tail_same
  prev_of-same (session a) = same.prev_same a
  prev_of-same null = refl
  prev_of-same head_addr = refl

  IsChain-same : (ls : List Link) → IsChain c ls → IsChain c' ls
  IsChain-same [] chain = tt
  IsChain-same (l ∷ []) chain = tt
  IsChain-same (l ∷ m ∷ ls) (joined, chain) =
      ((next_of-same l ∙ joined.0, prev_of-same m ∙ joined.1), IsChain-same (m ∷ ls) chain)

  pub IsList-same : (xs : List ℕ) → IsList c xs → IsList c' xs
  IsList-same xs is_list = record {
    chain = IsChain-same (links xs) is_list.chain;
    repeat_free = is_list.repeat_free;
    head_is = ap is_tail same.head_same ∙ is_list.head_is;
    tail_is = ap is_head same.tail_same ∙ is_list.tail_is;
    owned = λ a. same.owner_same a ∙ is_list.owned a;
    unlisted = λ a new. (
      same.next_same a ∙ (is_list.unlisted a new).0,
      same.prev_same a ∙ (is_list.unlisted a new).1,
    );
  }

-- The table holds the same sessions if the keys and the members stay.
pub IsIndexed-same :
    {H : Type 0} (t : Table H) (c c' : Cache) (h : H) (xs ys : List ℕ)
    → ((a : ℕ) → key (c'.heap a) ≡ key (c.heap a))
    → ((a : ℕ) → listed a ys ≡ listed a xs)
    → length ys ≡ length xs
    → IsIndexed t c h xs
    → IsIndexed t c' h ys
IsIndexed-same t c c' h xs ys keys members size indexed = record {
  holds = λ a here. ap (t.retrieve h) (keys a) ∙ indexed.holds a (sym (members a) ∙ here);
  only = λ k a e. let fact = indexed.only k a e in (members a ∙ fact.0, keys a ∙ fact.1);
  counted = indexed.counted ∙ sym size;
  named =
      λ a here. ap (λ k. is_empty k.session_id) (keys a) ∙ indexed.named a (sym (members a) ∙ here);
}

-- A change of a session that the invariant does not see.
pub record IsQuiet (f : Session → Session) : Type 0 where
  pub links :
      (s : Session) → ((f s).next ≡ s.next) × ((f s).prev ≡ s.prev) × ((f s).owner ≡ s.owner)
  pub keys : (s : Session) → key (f s) ≡ key s
  pub times :
      (s : Session) → ((f s).timeout_ovf ≡ s.timeout_ovf) × ((f s).calc_timeout ≡ s.calc_timeout)

pub free-IsQuiet : IsQuiet free
free-IsQuiet = record {
  links = λ s. (refl, refl, refl);
  keys = λ s. refl;
  times = λ s. (refl, refl);
}

pub up_ref-IsQuiet : IsQuiet up_ref
up_ref-IsQuiet = record {
  links = λ s. (refl, refl, refl);
  keys = λ s. refl;
  times = λ s. (refl, refl);
}

pub unresumable-IsQuiet : IsQuiet unresumable
unresumable-IsQuiet = record {
  links = λ s. (refl, refl, refl);
  keys = λ s. refl;
  times = λ s. (refl, refl);
}

at_least-same :
    (a a' b b' : Session)
    → a'.timeout_ovf ≡ a.timeout_ovf
    → a'.calc_timeout ≡ a.calc_timeout
    → b'.timeout_ovf ≡ b.timeout_ovf
    → b'.calc_timeout ≡ b.calc_timeout
    → at_least a' b' ≡ at_least a b
unfolding timeoutcmp
at_least-same a a' b b' e e' d d' = rw (e, e', d, d') refl

-- What is written to a session.
module _ (x : ℕ) (f : Session → Session) (c : Cache) where
  pub write-SameLinks :
      ((s : Session) → ((f s).next ≡ s.next) × ((f s).prev ≡ s.prev) × ((f s).owner ≡ s.owner))
      → SameLinks c (write x f c)
  unfolding write
  write-SameLinks same = record {
    head_same = refl;
    tail_same = refl;
    next_same = λ a. ground (arith, same (c.heap a));
    prev_same = λ a. ground (arith, same (c.heap a));
    owner_same = λ a. ground (arith, same (c.heap a));
  }

  pub write-keys :
      ((s : Session) → key (f s) ≡ key s) → (a : ℕ) → key ((write x f c).heap a) ≡ key (c.heap a)
  unfolding write
  write-keys same a = elim (Bool-cases (a == x)) [
    | inl here ↦ rw here (same (c.heap a))
    | inr other ↦ rw other refl
  ]

  write-times :
      ((s : Session) → ((f s).timeout_ovf ≡ s.timeout_ovf) × ((f s).calc_timeout ≡ s.calc_timeout))
      → (a : ℕ)
      → (((write x f c).heap a).timeout_ovf ≡ (c.heap a).timeout_ovf)
        × (((write x f c).heap a).calc_timeout ≡ (c.heap a).calc_timeout)
  unfolding write
  write-times same a = ground (arith, same (c.heap a))

  write-fits :
      ((s : Session) → ((f s).timeout_ovf ≡ s.timeout_ovf) × ((f s).calc_timeout ≡ s.calc_timeout))
      → (a b : ℕ) → fits (write x f c) a b ≡ fits c a b
  write-fits same a b =
      at_least-same (c.heap a) _ (c.heap b) _ (write-times same a).0 (write-times same a).1
        (write-times same b).0 (write-times same b).1

pub not_listed :
    (x a : ℕ) (xs : List ℕ) → listed x xs ≡ false → listed a xs ≡ true → (a == x) ≡ false
not_listed x a xs new here = elim (Bool-cases (a == x)) [
  | inl one ↦
      let same : a ≡ x = ground (arith, one) in
      absurd (ground (arith, new, subst (λ a. listed a xs ≡ true) same here))
  | inr other ↦ other
]

-- The order stays if the comparisons of the members do.
module _ (c c' : Cache) where
  AreEarlier-along :
      (x : ℕ) (xs : List ℕ)
      → ((b : ℕ) → listed b xs ≡ true → fits c' x b ≡ fits c x b)
      → AreEarlier c x xs
      → AreEarlier c' x xs
  AreEarlier-along x [] same a = tt
  AreEarlier-along x (y ∷ ys) same a = (
    same y (ground arith) ∙ a.0,
    AreEarlier-along x ys (λ b here. same b (ground (arith, here))) (a.1),
  )

  pub IsOrdered-along :
      (xs : List ℕ)
      → ((a b : ℕ) → listed a xs ≡ true → listed b xs ≡ true → fits c' a b ≡ fits c a b)
      → IsOrdered c xs
      → IsOrdered c' xs
  IsOrdered-along [] same ordered = tt
  IsOrdered-along (x ∷ xs) same ordered = (
    AreEarlier-along x xs (λ b here. same x b (ground arith) (ground (arith, here))) (ordered.0),
    IsOrdered-along xs (λ a b p q. same a b (ground (arith, p)) (ground (arith, q))) (ordered.1),
  )

module _ (c : Cache) where
  AreEarlier-delete : (x a : ℕ) (xs : List ℕ) → AreEarlier c x xs → AreEarlier c x (delete a xs)
  AreEarlier-delete x a [] e = tt
  AreEarlier-delete x a (y ∷ ys) e = ground (arith, e, AreEarlier-delete x a ys)

  pub delete-IsOrdered : (a : ℕ) (xs : List ℕ) → IsOrdered c xs → IsOrdered c (delete a xs)
  delete-IsOrdered a [] ordered = tt
  delete-IsOrdered a (y ∷ ys) ordered =
      ground (arith, ordered, AreEarlier-delete y a ys, delete-IsOrdered a ys)

  -- A change of a session that is not in the list.
  pub outside-IsOrdered :
      (x : ℕ) (f : Session → Session) (xs : List ℕ)
      → listed x xs ≡ false
      → IsOrdered c xs
      → IsOrdered (write x f c) xs
  unfolding write
  outside-IsOrdered x f xs new =
      IsOrdered-along c (write x f c) xs
        (λ a b p q. rw (not_listed x a xs new p, not_listed x b xs new q) refl)

-- A quiet change keeps the invariant.
pub change-IsHeld :
    {H : Type 0} (t : Table H) (g : Context H) (xs ys : List ℕ) (x : ℕ) (f : Session → Session)
    → IsQuiet f
    → IsHeld t g xs ys
    → IsHeld t (change x f g) xs ys
change-IsHeld t g xs ys x f quiet held = record {
  is_list =
      IsList-same g.cache (write x f g.cache) (write-SameLinks x f g.cache quiet.links) xs
        held.is_list;
  ordered =
      IsOrdered-along g.cache (write x f g.cache) xs
        (λ a b p q. write-fits x f g.cache quiet.times a b) held.ordered;
  indexed =
      IsIndexed-same t g.cache (write x f g.cache) g.sessions ys ys
        (write-keys x f g.cache quiet.keys) (λ a. refl) refl held.indexed;
}
