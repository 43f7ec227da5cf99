-- ===== src/Sessions/Add.antt =====
-- `SSL_SESSION_list_add` of ssl/ssl_sess.c puts a session in its place.
use openssl_3_0_bee2evp.Prelude.{
  ℕ, ◌≤◌, ◌≡◌, ◌∙◌, refl, sym, subst, true, false, ◌||◌, some, List, [], ◌∷◌, ◌++◌, arith, length,
}
use openssl_3_0_bee2evp.Sessions.{
  Link, null, head_addr, session, Cache, write, put_in, list_remove, list_add,
}
use openssl_3_0_bee2evp.Sessions.Linked.{
  same_link, has, IsChain, IsRepeatFree, rest_of, links, IsList, SameRest,
}
use openssl_3_0_bee2evp.Sessions.Spots.{Spot, apart, put_in-IsChain, part-IsChain, short_other}
use openssl_3_0_bee2evp.Sessions.Remove.{delete, has-delete-same, list_remove-IsList}
use openssl_3_0_bee2evp.Sessions.Place.{
  place, IsOrdered, place-Spot, place-IsOrdered, has-place, place-IsRepeatFree, place-same,
  IsOrdered-same,
}
use openssl_3_0_bee2evp.Sessions.Added.{
  placed, added, added-Joined, added-SameBut, added-ends, added-owner, added-SameRest,
}
use openssl_3_0_bee2evp.Sessions.Placing.{put_in-placed}

module _ (n x : ℕ) (c : Cache) where
  -- What is outside the list has no pointers, after the session is put in.
  outside :
      (xs : List ℕ) (spot : Spot x (links (place c x xs)) (links xs)) (a : ℕ)
      → IsList c xs
      → has (session a) (rest_of (place c x xs)) ≡ false
      → (((added x spot.p spot.q c).heap a).next ≡ null)
        × (((added x spot.p spot.q c).heap a).prev ≡ null)
  outside xs spot a is_list new =
      let same = added-SameBut x c spot.p spot.q spot.from spot.to in
      let both : (same_link (session a) (session x) || has (session a) (rest_of xs)) ≡ false =
        sym (has-place c x (session a) xs) ∙ new in
      let old_new : has (session a) (rest_of xs) ≡ false = ground (arith, both) in
      let other : same_link (session a) (session x) ≡ false = ground (arith, both) in
      let beside = short_other x spot (session a) old_new in
      let old = is_list.unlisted a old_new in
      (
        same.same_next (session a) (beside.0) other ∙ old.0,
        same.same_prev (session a) (beside.1) other ∙ old.1,
      )

  owned_after :
      (xs : List ℕ) (p q : Link) (a : ℕ)
      → IsList c xs
      → ((added x p q c).heap a).owner ≡ has (session a) (rest_of (place c x xs))
  owned_after xs p q a is_list =
      ground (arith, added-owner x c p q a, is_list.owned a, has-place c x (session a) xs)

  added-IsList :
      (xs : List ℕ) (spot : Spot x (links (place c x xs)) (links xs))
      → IsList c xs
      → has (session x) (rest_of xs) ≡ false
      → IsList (added x spot.p spot.q c) (place c x xs)
  added-IsList xs spot is_list new =
      let short = spot.before ++ (spot.p ∷ spot.q ∷ spot.behind) in
      let full = spot.before ++ (spot.p ∷ session x ∷ spot.q ∷ spot.behind) in
      let c' = added x spot.p spot.q c in
      let same = added-SameBut x c spot.p spot.q spot.from spot.to in
      let fresh : has head_addr (rest_of (place c x xs)) ≡ false =
        has-place c x head_addr xs ∙ is_list.repeat_free.0 in
      let free : IsRepeatFree (links (place c x xs)) =
        (fresh, place-IsRepeatFree c x xs (is_list.repeat_free.1) new) in
      let full_free : IsRepeatFree full = subst IsRepeatFree spot.full_is free in
      let ends = apart x c c' spot.before spot.p spot.q spot.behind same full_free in
      let joined = added-Joined x c spot.p spot.q spot.from spot.to (ends.0) (ends.1) in
      let ctx = added-ends x c spot.p spot.q is_list.head_is is_list.tail_is in
      record {
        chain = subst (IsChain c') (sym spot.full_is) (
            put_in-IsChain x c c' spot.before spot.p spot.q spot.behind same full_free
              (subst (IsChain c) spot.short_is is_list.chain) (joined.0) (joined.1));
        repeat_free = free;
        head_is = ctx.0;
        tail_is = ctx.1;
        owned = λ a. owned_after xs spot.p spot.q a is_list;
        unlisted = λ a. outside xs spot a is_list;
      }

  put_in-IsList :
      (xs : List ℕ)
      → IsList c xs
      → IsOrdered c xs
      → has (session x) (rest_of xs) ≡ false
      → length xs ≤ n
      → (p : Link) × (q : Link) × (put_in n x c ≡ some (placed x p q c))
        × IsList (added x p q c) (place c x xs)
  put_in-IsList xs is_list ordered new enough =
      let (spot, at_q) = place-Spot c x head_addr xs refl in
      let chain = subst (IsChain c) spot.short_is is_list.chain in
      let joined = (part-IsChain c spot.before spot.p (spot.q ∷ spot.behind) chain).0 in
      let beside = short_other x spot (session x) new in
      (
        spot.p,
        spot.q,
        put_in-placed n x c xs spot.p spot.q joined spot.from spot.to (beside.1) at_q is_list
            ordered enough,
        added-IsList xs spot is_list new,
      )

unfold_add :
    (n x : ℕ) (c c1 c2 : Cache)
    → list_remove x c ≡ some c1
    → put_in n x c1 ≡ some c2
    → list_add n x c ≡ some (write x (λ s. record s { owner = true }) c2)
unfolding list_add list_remove
unfold_add n x c c1 c2 e e' = ground (arith, e, e')

pub delete-length : (x : ℕ) (xs : List ℕ) → length (delete x xs) ≤ length xs
delete-length x [] = omega arith
delete-length x (y ∷ ys) = ground (arith, delete-length x ys)

-- The list that `SSL_SESSION_list_add` leaves.
pub record IsAdded (n x : ℕ) (c : Cache) (xs : List ℕ) (c' : Cache) : Type 0 where
  pub returns : list_add n x c ≡ some c'
  pub is_list : IsList c' (place c x (delete x xs))
  pub ordered : IsOrdered c' (place c x (delete x xs))
  pub same_rest : SameRest c c'

-- `SSL_SESSION_list_add`, on a well-formed list whose other sessions are ordered by their timeouts, the
-- last to time out first, follows no bad pointer and its loop ends. The session, whether it was in the
-- list or not, stands afterwards before the first of the others that does not time out later than it,
-- once; the list is well-formed and ordered, and nothing but the pointers of the list and `owner` has
-- changed in any session.
pub list_add-IsAdded :
    (n x : ℕ) (c : Cache) (xs : List ℕ)
    → IsList c xs
    → IsOrdered c (delete x xs)
    → length xs ≤ n
    → (c' : Cache) × IsAdded n x c xs c'
list_add-IsAdded n x c xs is_list ordered enough =
    let (c1, removes, is_list1, same1) = list_remove-IsList x c xs is_list in
    let ys = delete x xs in
    let ordered1 = IsOrdered-same c c1 same1 ys ordered in
    let gone : has (session x) (rest_of ys) ≡ false =
      ground (arith, has-delete-same x x xs (is_list.repeat_free.1)) in
    let (p, q, puts, is_list2) =
      put_in-IsList n x c1 ys is_list1 ordered1 gone (omega (arith, enough, delete-length x xs)) in
    let same2 = added-SameRest x c1 p q in
    let placed_same = place-same c c1 same1 x ys in
    (
      added x p q c1,
      record {
        returns = unfold_add n x c c1 (placed x p q c1) removes puts;
        is_list = subst (IsList (added x p q c1)) placed_same is_list2;
        ordered = subst (IsOrdered (added x p q c1)) placed_same (
            IsOrdered-same c1 (added x p q c1) same2 (place c1 x ys)
              (place-IsOrdered c1 x ys ordered1));
        same_rest = record { same = λ a. same2.same a ∙ same1.same a };
      },
    )
