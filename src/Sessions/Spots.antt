-- ===== src/Sessions/Spots.antt =====
-- A place in the list of sessions: the list with a session at this place and without it.
use openssl_3_0_bee2evp.Prelude.{
  ℕ, ◌≡◌, ◌∙◌, refl, sym, ap, subst, Bool, true, false, ◌||◌, List, [], ◌∷◌, ◌++◌, arith,
  Bool-cases, inl, inr,
}
use openssl_3_0_bee2evp.Sessions.{Link, head_addr, tail_addr, session, Cache}
use openssl_3_0_bee2evp.Sessions.Linked.{
  same_link, same_link-sym, Joined, IsChain, has, IsRepeatFree, SameBut, after_same, before_same,
}

-- What may come before a session, and after it.
abbrev pub is_from : Link → Bool
is_from head_addr = true
is_from (session a) = true
is_from _ = false

abbrev pub is_to : Link → Bool
is_to tail_addr = true
is_to (session a) = true
is_to _ = false

pub record Spot (x : ℕ) (full short : List Link) : Type 0 where
  pub before : List Link
  pub p : Link
  pub q : Link
  pub behind : List Link
  pub full_is : full ≡ before ++ (p ∷ session x ∷ q ∷ behind)
  pub short_is : short ≡ before ++ (p ∷ q ∷ behind)
  pub from : is_from p ≡ true
  pub to : is_to q ≡ true

-- The same place, with one more pointer before it.
abbrev pub extend :
    (x : ℕ) (l : Link) {full short : List Link} → Spot x full short → Spot x (l ∷ full) (l ∷ short)
extend x l spot = record {
  before = l ∷ spot.before;
  p = spot.p;
  q = spot.q;
  behind = spot.behind;
  full_is = ap (λ ls. l ∷ ls) spot.full_is;
  short_is = ap (λ ls. l ∷ ls) spot.short_is;
  from = spot.from;
  to = spot.to;
}

pub same_link-eq : (l m : Link) → same_link l m ≡ true → l ≡ m
same_link-eq (session a) (session b) h = ap session (ground (arith, h))
same_link-eq l m h = ground (arith, h)

same_link_refl : (l : Link) → same_link l l ≡ true
same_link_refl l = ground arith

has-append : (m : Link) (ls ms : List Link) → has m (ls ++ ms) ≡ (has m ls || has m ms)
has-append m [] ms = refl
has-append m (a ∷ ls) ms = ground (arith, has-append m ls ms)

-- What occurs in a part does not occur in another.
elsewhere :
    (m : Link) (ls ms : List Link) → IsRepeatFree (ls ++ ms) → has m ms ≡ true → has m ls ≡ false
elsewhere m [] ms free there = refl
elsewhere m (a ∷ ls) ms (new, free) there = elim (Bool-cases (same_link m a)) [
  | inl same ↦ absurd (
      ground (
        arith,
        has-append a ls ms,
        new,
        subst (λ l. has l ms ≡ true) (same_link-eq m a same) there,
      ))
  | inr other ↦ ground (arith, other, elsewhere m ls ms free there)
]

pub part-IsRepeatFree : (ls ms : List Link) → IsRepeatFree (ls ++ ms) → IsRepeatFree ms
part-IsRepeatFree [] ms free = free
part-IsRepeatFree (a ∷ ls) ms (new, free) = part-IsRepeatFree ls ms free

pub part-IsChain :
    (c : Cache) (ls : List Link) (m : Link) (ms : List Link)
    → IsChain c (ls ++ (m ∷ ms))
    → IsChain c (m ∷ ms)
part-IsChain c [] m ms chain = chain
part-IsChain c (a ∷ []) m ms chain = chain.1
part-IsChain c (a ∷ b ∷ ls) m ms chain = part-IsChain c (b ∷ ls) m ms (chain.1)

-- Around a place, nothing else changes.
module _ (x : ℕ) (c c' : Cache) (before : List Link) (p q : Link) (behind : List Link)
    (same : SameBut p (session x) q (session x) c c') where
  -- What a list without repetition says of a place in it.
  pub apart :
      IsRepeatFree (before ++ (p ∷ session x ∷ q ∷ behind))
      → (same_link p (session x) ≡ false)
        × (same_link q (session x) ≡ false)
        × (same_link p q ≡ false)
  apart free =
      let part = part-IsRepeatFree before (p ∷ session x ∷ q ∷ behind) free in
      (
        ground (arith, part.0),
        ground (arith, part.1.0, same_link-sym q (session x)),
        ground (arith, part.0),
      )

  around :
      (old new : List Link)
      → IsRepeatFree (before ++ (p ∷ session x ∷ q ∷ behind))
      → IsChain c (before ++ (p ∷ old))
      → IsChain c (q ∷ behind)
      → (IsChain c' (q ∷ behind) → IsChain c' (p ∷ new))
      → IsChain c' (before ++ (p ∷ new))
  around old new free chain tail done =
      let part = part-IsRepeatFree before (p ∷ session x ∷ q ∷ behind) free in
      let all = p ∷ session x ∷ q ∷ behind in
      let p_new : has p before ≡ false =
        elsewhere p before all free (ground (arith, same_link_refl p)) in
      let x_new : has (session x) before ≡ false =
        elsewhere (session x) before all free (ground (arith, same_link_refl (session x))) in
      let q_new : has q before ≡ false =
        elsewhere q before all free (ground (arith, same_link_refl q)) in
      let ends = apart free in
      before_same same before p old new p_new x_new
        (ground (arith, has-append q before (p ∷ []), q_new, same_link-sym q p, ends.2))
        (ground (
          arith,
          has-append (session x) before (p ∷ []),
          x_new,
          same_link-sym p (session x),
          ends.0,
        ))
        chain
        (done (
          after_same same q behind (ground (arith, part.0)) (ground (arith, part.1.0))
            (ground (arith, part.1.1.0)) (ground (arith, part.1.0)) tail))

  pub taken_out-IsChain :
      IsRepeatFree (before ++ (p ∷ session x ∷ q ∷ behind))
      → IsChain c (before ++ (p ∷ session x ∷ q ∷ behind))
      → Joined c' p q
      → IsChain c' (before ++ (p ∷ q ∷ behind))
  taken_out-IsChain free chain joined =
      around (session x ∷ q ∷ behind) (q ∷ behind) free chain
        (part-IsChain c before p (session x ∷ q ∷ behind) chain).1.1 (λ tail. (joined, tail))

  pub put_in-IsChain :
      IsRepeatFree (before ++ (p ∷ session x ∷ q ∷ behind))
      → IsChain c (before ++ (p ∷ q ∷ behind))
      → Joined c' p (session x)
      → Joined c' (session x) q
      → IsChain c' (before ++ (p ∷ session x ∷ q ∷ behind))
  put_in-IsChain free chain joined joined' =
      around (q ∷ behind) (session x ∷ q ∷ behind) free chain
        (part-IsChain c before p (q ∷ behind) chain).1 (λ tail. (joined, (joined', tail)))

-- A pointer that is not in the list is not beside the place.
pub short_other :
    (x : ℕ) {full short : List Link} (spot : Spot x full short) (l : Link)
    → has l short ≡ false
    → (same_link l spot.p ≡ false) × (same_link l spot.q ≡ false)
short_other x spot l new =
    let ms = spot.p ∷ spot.q ∷ spot.behind in
    let e : has l (spot.before ++ ms) ≡ false = ap (has l) (sym spot.short_is) ∙ new in
    (ground (arith, e, has-append l spot.before ms), ground (arith, e, has-append l spot.before ms))
