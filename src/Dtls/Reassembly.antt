-- ===== src/Dtls/Reassembly.antt =====
-- The reassembly of a fragmented message in ssl/statem/statem_dtls.c: the bitmask of the bytes that
-- have arrived, and `dtls1_reassemble_fragment` on a message that is being assembled. A byte of the
-- bitmask is the list of its bits, the lowest first; bits after the end of a list are zero.
pub mod Mask
pub mod Complete
pub mod Pieces
pub mod Content
use openssl_3_0_bee2evp.Prelude.{
  ℕ, zero, suc, ◌+◌, ◌-◌, ◌/◌, ◌%◌, ◌≡◌, Bool, true, false, not, ◌&&◌, ◌||◌, Option, none, some,
  List, [], ◌∷◌, length, leb, ◌==◌, if◌then◌else◌,
}
use openssl_3_0_bee2evp.Dtls.Bitmap.{bit_at, zeros_before}
use openssl_3_0_bee2evp.Dtls.Message.{MsgHeader}

-- An element of an array; a default past its end.
abbrev pub element {ℓ} : {A : Type ℓ} → A → List A → ℕ → A
element d [] i = d
element d (x ∷ xs) zero = x
element d (x ∷ xs) (suc i) = element d xs i

-- An assignment to an element.
abbrev pub update {ℓ} : {A : Type ℓ} → (A → A) → List A → ℕ → List A
update f [] i = []
update f (x ∷ xs) zero = f x ∷ xs
update f (x ∷ xs) (suc i) = x ∷ update f xs i

-- `a | b`
abbrev pub or_bits : List Bool → List Bool → List Bool
or_bits [] b = b
or_bits (x ∷ a) [] = x ∷ a
or_bits (x ∷ a) (y ∷ b) = (x || y) ∷ or_bits a b

-- `a == b`, for bytes
abbrev pub same_bits : ℕ → List Bool → List Bool → Bool
same_bits zero a b = true
same_bits (suc n) a b = (if bit_at a n then bit_at b n else not (bit_at b n)) && same_bits n a b

abbrev pub full_byte : List Bool
full_byte = true ∷ true ∷ true ∷ true ∷ true ∷ true ∷ true ∷ true ∷ []

abbrev pub bitmask_start_values : List (List Bool)
bitmask_start_values =
    full_byte
    ∷ (false ∷ true ∷ true ∷ true ∷ true ∷ true ∷ true ∷ true ∷ [])
    ∷ (false ∷ false ∷ true ∷ true ∷ true ∷ true ∷ true ∷ true ∷ [])
    ∷ (false ∷ false ∷ false ∷ true ∷ true ∷ true ∷ true ∷ true ∷ [])
    ∷ (false ∷ false ∷ false ∷ false ∷ true ∷ true ∷ true ∷ true ∷ [])
    ∷ (false ∷ false ∷ false ∷ false ∷ false ∷ true ∷ true ∷ true ∷ [])
    ∷ (false ∷ false ∷ false ∷ false ∷ false ∷ false ∷ true ∷ true ∷ [])
    ∷ (false ∷ false ∷ false ∷ false ∷ false ∷ false ∷ false ∷ true ∷ [])
    ∷ []

abbrev pub bitmask_end_values : List (List Bool)
bitmask_end_values =
    full_byte
    ∷ (true ∷ [])
    ∷ (true ∷ true ∷ [])
    ∷ (true ∷ true ∷ true ∷ [])
    ∷ (true ∷ true ∷ true ∷ true ∷ [])
    ∷ (true ∷ true ∷ true ∷ true ∷ true ∷ [])
    ∷ (true ∷ true ∷ true ∷ true ∷ true ∷ true ∷ [])
    ∷ (true ∷ true ∷ true ∷ true ∷ true ∷ true ∷ true ∷ [])
    ∷ []

-- The loops of `RSMBLY_BITMASK_MARK`: single bits from `ii` on, and whole bytes.
unfoldable pub mark_bits : ℕ → ℕ → List (List Bool) → List (List Bool)
mark_bits zero ii bitmask = bitmask
mark_bits (suc n) ii bitmask =
    mark_bits n (suc ii) (update (or_bits (zeros_before (ii % 8) (true ∷ []))) bitmask (ii / 8))

unfoldable pub fill_bytes : ℕ → ℕ → List (List Bool) → List (List Bool)
fill_bytes zero ii bitmask = bitmask
fill_bytes (suc n) ii bitmask = fill_bytes n (suc ii) (update (λ b. full_byte) bitmask ii)

-- `RSMBLY_BITMASK_MARK`
unfoldable pub mark : ℕ → ℕ → List (List Bool) → List (List Bool)
mark start end bitmask =
    if leb (end - start) 8
    then mark_bits (end - start) start bitmask
    else update (or_bits (element [] bitmask_end_values (end % 8)))
        (fill_bytes ((end - 1) / 8 - (start / 8 + 1)) (start / 8 + 1)
          (update (or_bits (element [] bitmask_start_values (start % 8))) bitmask (start / 8)))
        ((end - 1) / 8)

-- The loop of `RSMBLY_BITMASK_IS_COMPLETE`, from the byte below `n` downwards.
unfoldable pub all_full : ℕ → List (List Bool) → Bool
all_full zero bitmask = true
all_full (suc n) bitmask =
    let rest = all_full n bitmask in
    if not (same_bits 8 (element [] bitmask n) full_byte) then false else rest

-- `RSMBLY_BITMASK_IS_COMPLETE`
unfoldable pub is_complete : ℕ → List (List Bool) → Bool
is_complete msg_len bitmask =
    if not (
      same_bits 8 (element [] bitmask ((msg_len - 1) / 8))
        (element [] bitmask_end_values (msg_len % 8)))
    then false
    else all_full ((msg_len - 1) / 8) bitmask

-- `hm_fragment`; the bitmask is `none` if the message is complete.
pub record HmFragment : Type 0 where
  pub msg_header : MsgHeader
  pub fragment : List ℕ
  pub reassembly : Option (List (List Bool))

abbrev pub zeros {ℓ} : {A : Type ℓ} → A → ℕ → List A
zeros z zero = []
zeros z (suc n) = z ∷ zeros z n

-- `dtls1_hm_fragment_new(msg_len, 1)` and the header that is copied into the new fragment. The bytes
-- of the buffer are not initialised: `junk` is what they are.
unfoldable pub fragment_new : List ℕ → MsgHeader → HmFragment
fragment_new junk h = record {
  msg_header = record h { frag_len = h.msg_len; frag_off = 0 };
  fragment = junk;
  reassembly = some (zeros [] ((h.msg_len + 7) / 8));
}

-- The bytes that are read go to an offset of the buffer.
abbrev pub put_at : ℕ → List ℕ → List ℕ → List ℕ
put_at off [] buffer = buffer
put_at off (b ∷ body) buffer = put_at (suc off) body (update (λ c. b) buffer off)

-- `dtls1_reassemble_fragment` on a fragment with a bitmask, once the body is read, up to the queue.
unfoldable pub add_body : ℕ → List ℕ → List (List Bool) → HmFragment → HmFragment
add_body frag_off body bitmask frag =
    let marked = mark frag_off (frag_off + length body) bitmask in
    record frag {
      fragment = put_at frag_off body frag.fragment;
      reassembly = if is_complete frag.msg_header.msg_len marked then none else some marked;
    }

-- A message that is complete is left alone.
unfoldable pub add_fragment : ℕ → List ℕ → HmFragment → HmFragment
add_fragment frag_off body frag = elim (frag.reassembly) [
  | none ↦ frag
  | some bitmask ↦ add_body frag_off body bitmask frag
]
