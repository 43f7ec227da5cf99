-- ===== src/Sessions/Remove.antt =====
-- `SSL_SESSION_list_remove` of ssl/ssl_sess.c takes a session out of the list.
use openssl_3_0_bee2evp.Prelude.{
  ℕ, ◌≡◌, ◌∙◌, refl, sym, ap, ap₂, subst, true, false, some, List, [], ◌∷◌, ◌++◌, ◌==◌, arith,
  if◌then◌else◌, Bool-cases, inl, inr,
}
use openssl_3_0_bee2evp.Sessions.{Link, null, head_addr, tail_addr, session, Cache, list_remove}
use openssl_3_0_bee2evp.Sessions.Spots.{
  is_from, is_to, Spot, extend, apart, taken_out-IsChain, part-IsChain, short_other,
}
use openssl_3_0_bee2evp.Sessions.Linked.{
  IsChain, has, IsRepeatFree, rest_of, links, IsList, SameRest,
}
use openssl_3_0_bee2evp.Sessions.Removed.{
  removed, list_remove-removed, removed-Joined, removed-SameBut, removed-ends, removed-owner,
  removed-null, removed-SameRest, list_remove-absent,
}

abbrev pub delete : ℕ → List ℕ → List ℕ
delete x [] = []
delete x (y ∷ ys) = if y == x then ys else y ∷ delete x ys

rest_of-cons-IsTo :
    (xs : List ℕ) → (q : Link) × (ms : List Link) × (rest_of xs ≡ q ∷ ms) × (is_to q ≡ true)
rest_of-cons-IsTo [] = (tail_addr, [], refl, refl)
rest_of-cons-IsTo (x ∷ xs) = (session x, rest_of xs, refl, refl)

delete-Spot :
    (x : ℕ) (l : Link) (xs : List ℕ)
    → is_from l ≡ true
    → has (session x) (rest_of xs) ≡ true
    → Spot x (l ∷ rest_of xs) (l ∷ rest_of (delete x xs))
delete-Spot x l [] from there = absurd (ground (arith, there))
delete-Spot x l (y ∷ ys) from there = elim (Bool-cases (y == x)) [
  | inl found ↦
      let (q, ms, e, to) = rest_of-cons-IsTo ys in
      record {
        before = [];
        p = l;
        q = q;
        behind = ms;
        full_is = ap₂ (λ a b. l ∷ session a ∷ b) (ground (arith, found)) e;
        short_is = rw found (ap (λ b. l ∷ b) e);
        from = from;
        to = to;
      }
  | inr other ↦
      rw other (extend x l (delete-Spot x (session y) ys refl (ground (arith, there, other))))
]

has-delete :
    (x : ℕ) (m : Link) (xs : List ℕ)
    → has m (rest_of xs) ≡ false
    → has m (rest_of (delete x xs)) ≡ false
has-delete x m [] new = new
has-delete x m (y ∷ ys) new = ground (arith, new, has-delete x m ys)

delete-IsRepeatFree :
    (x : ℕ) (xs : List ℕ) → IsRepeatFree (rest_of xs) → IsRepeatFree (rest_of (delete x xs))
delete-IsRepeatFree x [] free = free
delete-IsRepeatFree x (y ∷ ys) free =
    ground (arith, free, has-delete x (session y) ys, delete-IsRepeatFree x ys)

pub has-delete-same :
    (x a : ℕ) (xs : List ℕ)
    → IsRepeatFree (rest_of xs)
    → has (session a) (rest_of (delete x xs))
      ≡ (if a == x then false else has (session a) (rest_of xs))
has-delete-same x a [] free = ground arith
has-delete-same x a (y ∷ ys) free = ground (arith, free, has-delete-same x a ys)

pub delete-absent : (x : ℕ) (xs : List ℕ) → has (session x) (rest_of xs) ≡ false → delete x xs ≡ xs
delete-absent x [] new = refl
delete-absent x (y ∷ ys) new = ground (arith, new, delete-absent x ys)

module _ (x : ℕ) (c : Cache) (xs : List ℕ) (is_list : IsList c xs) where
  -- A session that is not in the list has no pointers, the one that was removed included.
  unlisted :
      (spot : Spot x (links xs) (links (delete x xs))) (a : ℕ)
      → has (session a) (rest_of (delete x xs)) ≡ false
      → (((removed x spot.p spot.q c).heap a).next ≡ null)
        × (((removed x spot.p spot.q c).heap a).prev ≡ null)
  unlisted spot a new = elim (Bool-cases (a == x)) [
    | inl gone ↦ removed-null x c spot.p spot.q a gone
    | inr other ↦
        let same = removed-SameBut x c spot.p spot.q spot.from spot.to in
        let beside = short_other x spot (session a) new in
        let old =
          is_list.unlisted a
            (ground (arith, new, other, has-delete-same x a xs (is_list.repeat_free.1))) in
        (
          same.same_next (session a) (beside.0) other ∙ old.0,
          same.same_prev (session a) (beside.1) other ∙ old.1,
        )
  ]

  taken_out :
      (spot : Spot x (links xs) (links (delete x xs)))
      → (list_remove x c ≡ some (removed x spot.p spot.q c))
        × IsList (removed x spot.p spot.q c) (delete x xs)
  taken_out spot =
      let ms = session x ∷ spot.q ∷ spot.behind in
      let full = spot.before ++ (spot.p ∷ ms) in
      let free : IsRepeatFree full = subst IsRepeatFree spot.full_is is_list.repeat_free in
      let chain : IsChain c full = subst (IsChain c) spot.full_is is_list.chain in
      let part = part-IsChain c spot.before spot.p ms chain in
      let c' = removed x spot.p spot.q c in
      let same = removed-SameBut x c spot.p spot.q spot.from spot.to in
      let ends = apart x c c' spot.before spot.p spot.q spot.behind same free in
      let ctx = removed-ends x c spot.p spot.q is_list.head_is is_list.tail_is in
      (
        list_remove-removed x c spot.p spot.q (part.0.1) (part.1.0.0) spot.from spot.to (ends.0)
            (ends.1),
        record {
          chain = subst (IsChain c') (sym spot.short_is) (
              taken_out-IsChain x c c' spot.before spot.p spot.q spot.behind same free chain
                (removed-Joined x c spot.p spot.q spot.from spot.to (ends.0) (ends.1)));
          repeat_free = (
            has-delete x head_addr xs (is_list.repeat_free.0),
            delete-IsRepeatFree x xs (is_list.repeat_free.1),
          );
          head_is = ctx.0;
          tail_is = ctx.1;
          owned = λ a.
              removed-owner x c spot.p spot.q a
              ∙ ap (λ b. if a == x then false else b) (is_list.owned a)
              ∙ sym (has-delete-same x a xs (is_list.repeat_free.1));
          unlisted = unlisted spot;
        },
      )

-- `SSL_SESSION_list_remove`, on a well-formed list, follows no bad pointer and takes the session, if it
-- is there, out of the list. The order of the others stays, and nothing but the pointers of the list
-- and `owner` changes in any session. The list is well-formed again: the pointers lead through it in
-- both directions, a session outside it has no pointers, and `owner` is set in exactly those that are
-- in it.
pub list_remove-IsList :
    (x : ℕ) (c : Cache) (xs : List ℕ)
    → IsList c xs
    → (c' : Cache) × (list_remove x c ≡ some c') × IsList c' (delete x xs) × SameRest c c'
list_remove-IsList x c xs is_list = elim (Bool-cases (has (session x) (rest_of xs))) [
  | inl there ↦
      let spot = delete-Spot x head_addr xs refl there in
      let result = taken_out x c xs is_list spot in
      (removed x spot.p spot.q c, result.0, result.1, removed-SameRest x c spot.p spot.q)
  | inr new ↦ (
    c,
    list_remove-absent x c (is_list.unlisted x new).0,
    subst (IsList c) (sym (delete-absent x xs new)) is_list,
    record { same = λ a. refl },
  )
]
