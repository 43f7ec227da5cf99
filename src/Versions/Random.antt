-- ===== src/Versions/Random.antt =====
-- The sentinels in the random number of a hello: `ssl_fill_hello_random` of ssl/s3_lib.c.
use openssl_3_0_bee2evp.Prelude.{
  ℕ, zero, suc, ◌-◌, Bool, true, false, not, ◌&&◌, ◌||◌, Option, none, some, List, [], ◌∷◌, ◌++◌,
  length, ltb, ◌==◌, if◌then◌else◌,
}
use openssl_3_0_bee2evp.Versions.Server.{
  Downgrade, downgrade_none, downgrade_to_1_2, downgrade_to_1_1,
}

abbrev pub tls11downgrade : List ℕ
tls11downgrade = 0x44 ∷ 0x4f ∷ 0x57 ∷ 0x4e ∷ 0x47 ∷ 0x52 ∷ 0x44 ∷ 0x00 ∷ []

abbrev pub tls12downgrade : List ℕ
tls12downgrade = 0x44 ∷ 0x4f ∷ 0x57 ∷ 0x4e ∷ 0x47 ∷ 0x52 ∷ 0x44 ∷ 0x01 ∷ []

abbrev pub drop : ℕ → List ℕ → List ℕ
drop zero xs = xs
drop (suc n) [] = []
drop (suc n) (x ∷ xs) = drop n xs

abbrev pub take : ℕ → List ℕ → List ℕ
take zero xs = []
take (suc n) [] = []
take (suc n) (x ∷ xs) = x ∷ take n xs

-- `memcmp(a, b, n) == 0` on vectors of the same length.
abbrev pub same : List ℕ → List ℕ → Bool
same [] [] = true
same (x ∷ xs) (y ∷ ys) = x == y && same xs ys
same _ _ = false

-- `memcpy(result + len - sizeof(tail), tail, sizeof(tail))`
abbrev pub end_with : List ℕ → List ℕ → List ℕ
end_with tail result = take (length result - length tail) result ++ tail

abbrev pub put_sentinel : Downgrade → List ℕ → List ℕ
put_sentinel downgrade_none result = result
put_sentinel downgrade_to_1_2 result = end_with tls12downgrade result
put_sentinel downgrade_to_1_1 result = end_with tls11downgrade result

-- `ssl_fill_hello_random` for a field of `len` bytes; `none` is a result that is not positive.
-- `rand` is `RAND_bytes_ex`, for the number of bytes, and `time` the four bytes of the time, which is
-- sent if a mode asks for it.
module _ (rand : ℕ → Option (List ℕ)) (time : List ℕ) where
  abbrev pub random_bytes : Bool → ℕ → Option (List ℕ)
  random_bytes send_time len =
      if send_time
      then elim (rand (len - 4)) [ none ↦ none | some bytes ↦ some (time ++ bytes) ]
      else rand len

  unfoldable pub fill_hello_random : Bool → ℕ → Downgrade → Option (List ℕ)
  fill_hello_random send_time len dgrd =
      if ltb len 4 then none else elim (random_bytes send_time len) [
        | none ↦ none
        | some result ↦
            if not (ltb (length tls11downgrade) len) || not (ltb (length tls12downgrade) len)
            then none
            else some (put_sentinel dgrd result)
      ]
