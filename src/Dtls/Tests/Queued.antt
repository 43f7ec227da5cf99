-- ===== src/Dtls/Tests/Queued.antt =====
-- A queue of three items.
use openssl_3_0_bee2evp.Prelude.{ℕ, ◌+◌, List, [], ◌∷◌, arith}
use openssl_3_0_bee2evp.Dtls.Pqueue.{Pitem}
use openssl_3_0_bee2evp.Dtls.Pqueue.Order.{IsSorted}

abbrev item : ℕ → Pitem ℕ
item n = record { priority = n; value = n + 100 }

abbrev three : List (Pitem ℕ)
three = item 2 ∷ item 5 ∷ item 9 ∷ []

abbrev two : List (Pitem ℕ)
two = item 5 ∷ item 9 ∷ []

three-IsSorted : IsSorted three
three-IsSorted = ground arith
