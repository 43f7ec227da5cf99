-- ===== src/Versions/Filled.antt =====
-- What `ssl_fill_hello_random` returns, and the sentinel that the client finds in it.
use openssl_3_0_bee2evp.Prelude.{
  ap, suc, zero, ℕ, ◌-◌, ◌≤◌, ◌≡◌, refl, Bool, true, false, not, ◌||◌, Option, none, some, List, [],
  ◌∷◌, ◌++◌, ltb, if◌then◌else◌, if-eq, arith, length, length-append,
}
use openssl_3_0_bee2evp.Versions.{Handle}
use openssl_3_0_bee2evp.Versions.Server.{Downgrade}
use openssl_3_0_bee2evp.Versions.Client.{ends_with}
use openssl_3_0_bee2evp.Versions.Random.{
  drop, take, same, end_with, put_sentinel, random_bytes, fill_hello_random,
}

-- The end of a random number that carries a sentinel.
take-length : (n : ℕ) (xs : List ℕ) → n ≤ length xs → length (take n xs) ≡ n
take-length zero xs h = refl
take-length (suc n) [] h = absurd (omega (arith, h))
take-length (suc n) (x ∷ xs) h = ap suc (take-length n xs (omega (arith, h)))

drop-take : (n : ℕ) (xs tail : List ℕ) → n ≤ length xs → drop n (take n xs ++ tail) ≡ tail
drop-take zero xs tail h = refl
drop-take (suc n) [] tail h = absurd (omega arith)
drop-take (suc n) (x ∷ xs) tail h = drop-take n xs tail (omega arith)

end_with-same :
    (tail result : List ℕ)
    → length tail ≤ length result
    → drop (length (end_with tail result) - length tail) (end_with tail result) ≡ tail
end_with-same tail result h =
    let n = length result - length tail in
    let short = take-length n result (omega (arith, h)) in
    let long = length-append (take n result) tail in
    let start : length (end_with tail result) - length tail ≡ n = omega (arith, short, long) in
    rw start (drop-take n result tail (omega (arith, h)))

same_refl : (xs : List ℕ) → same xs xs ≡ true
same_refl [] = refl
same_refl (x ∷ xs) = ground (arith, same_refl xs)

pub end_with-ends_with :
    (tail result : List ℕ) (c : Handle)
    → length tail ≤ length result
    → c.server_random ≡ end_with tail result
    → ends_with tail c ≡ true
end_with-ends_with tail result c h e = rw (e, end_with-same tail result h) (same_refl tail)

-- What `ssl_fill_hello_random` returns.
pub record Filled (dgrd : Downgrade) (random : List ℕ) : Type 0 where
  pub bytes : List ℕ
  pub long : 8 ≤ length bytes
  pub put : random ≡ put_sentinel dgrd bytes

abbrev size : Option (List ℕ) → ℕ
size none = 0
size (some xs) = length xs

module _ (rand : ℕ → Option (List ℕ)) (time : List ℕ) where
  random_bytes-length :
      (send_time : Bool) (len : ℕ) (bytes : List ℕ)
      → 4 ≤ len
      → length time ≡ 4
      → ((n : ℕ) (bytes : List ℕ) → rand n ≡ some bytes → length bytes ≡ n)
      → random_bytes rand time send_time len ≡ some bytes
      → length bytes ≡ len
  random_bytes-length false len bytes enough clock promise e = promise len bytes e
  random_bytes-length true len bytes enough clock promise e = go (rand (len - 4)) refl e
    where
      go :
          (r : Option (List ℕ))
          → rand (len - 4) ≡ r
          → elim r [ none ↦ none | some bytes ↦ some (time ++ bytes) ] ≡ some bytes
          → length bytes ≡ len
      go none h e = absurd (ground (arith, e))
      go (some rest) h e =
          omega (arith, ap size e, length-append time rest, promise (len - 4) rest h)

  pub fill_hello_random-Filled :
      (send_time : Bool) (len : ℕ) (dgrd : Downgrade) (random : List ℕ)
      → length time ≡ 4
      → ((n : ℕ) (bytes : List ℕ) → rand n ≡ some bytes → length bytes ≡ n)
      → fill_hello_random rand time send_time len dgrd ≡ some random
      → Filled dgrd random
  unfolding fill_hello_random
  fill_hello_random-Filled send_time len dgrd random clock promise e =
      if-eq (ltb len 4) (λ short e. absurd (ground (arith, e)))
        (λ enough e. go (random_bytes rand time send_time len) refl (ground (arith, enough)) e) e
    where
      go :
          (r : Option (List ℕ))
          → random_bytes rand time send_time len ≡ r
          → 4 ≤ len
          → elim r [
            | none ↦ none
            | some result ↦
                if not (ltb 8 len) || not (ltb 8 len) then none else some (put_sentinel dgrd result)
          ]
            ≡ some random
          → Filled dgrd random
      go none h enough e = absurd (ground (arith, e))
      go (some bytes) h enough e =
          let size_is = random_bytes-length send_time len bytes enough clock promise h in
          record { bytes = bytes; long = ground (arith, e, size_is); put = ground (arith, e) }
