-- ===== src/Dtls/Message/Header.antt =====
-- Reading what is written, and writing what is read.
use openssl_3_0_bee2evp.Prelude.{
  ℕ, Bool, true, ◌&&◌, ltb, ◌/◌, ◌%◌, sym, ◌<◌, ◌^◌, ◌≡◌, refl, ap, Option, none, some, List, [],
  ◌∷◌, arith, ◌∙◌,
}
use openssl_3_0_bee2evp.Dtls.Message.{
  l2n3, s2n, MsgHeader, n2l3, n2s, write_message_header, get_message_header,
}

-- The members fit into the bytes that are written, and no mark of a change of cipher specification is
-- set.
pub record IsSendable (h : MsgHeader) : Type 0 where
  pub type_fits : h.type < 256
  pub msg_len_fits : h.msg_len < 2 ^ 24
  pub seq_fits : h.seq < 2 ^ 16
  pub frag_off_fits : h.frag_off < 2 ^ 24
  pub frag_len_fits : h.frag_len < 2 ^ 24
  pub no_ccs : h.is_ccs ≡ 0

two_bytes : (n : ℕ) → n < 2 ^ 16 → n2s (n / 2 ^ 8 % 256) (n % 256) ≡ n
two_bytes n h = omega (arith, h)

three_bytes : (n : ℕ) → n < 2 ^ 24 → n2l3 (n / 2 ^ 16 % 256) (n / 2 ^ 8 % 256) (n % 256) ≡ n
three_bytes n h = omega (arith, h)

-- `dtls1_get_message_header` reads from the bytes that `dtls1_write_message_header` writes the same
-- header and leaves the bytes after it, if the lengths and the offset are below 2^24, the sequence
-- number is below 2^16 and the type is a byte of no change of cipher specification.
pub get-write :
    (h : MsgHeader) (rest : List ℕ)
    → IsSendable h
    → get_message_header (write_message_header h rest) ≡ some (h, rest)
unfolding get_message_header write_message_header
get-write h rest ok =
    rw
      (
        three_bytes h.msg_len ok.msg_len_fits,
        two_bytes h.seq ok.seq_fits,
        three_bytes h.frag_off ok.frag_off_fits,
        three_bytes h.frag_len ok.frag_len_fits,
      )
      (ap (λ n. some (record h { is_ccs = n }, rest)) (sym ok.no_ccs))

-- Every element is a byte.
abbrev pub are_bytes : List ℕ → Bool
are_bytes [] = true
are_bytes (b ∷ bs) = ltb b 256 && are_bytes bs

-- The bytes that a header stands for, and those after it.
abbrev pub rewrite_header : MsgHeader × List ℕ → List ℕ
rewrite_header (h, rest) = write_message_header h rest

abbrev pub map_rewrite : Option (MsgHeader × List ℕ) → Option (List ℕ)
map_rewrite none = none
map_rewrite (some r) = some (rewrite_header r)

top_byte : (a b c : ℕ) → a < 256 → b < 256 → c < 256 → n2l3 a b c / 2 ^ 16 % 256 ≡ a
top_byte a b c p q r = omega (arith, p, q, r)

mid_byte : (a b c : ℕ) → b < 256 → c < 256 → n2l3 a b c / 2 ^ 8 % 256 ≡ b
mid_byte a b c q r = omega (arith, q, r)

low_byte : (a b c : ℕ) → c < 256 → n2l3 a b c % 256 ≡ c
low_byte a b c r = omega (arith, r)

high_byte : (a b : ℕ) → a < 256 → b < 256 → n2s a b / 2 ^ 8 % 256 ≡ a
high_byte a b p q = omega (arith, p, q)

last_byte : (a b : ℕ) → b < 256 → n2s a b % 256 ≡ b
last_byte a b q = omega (arith, q)

-- Three bytes are the number that they stand for, and so are two.
same_three :
    (a b c : ℕ) (more rest : List ℕ)
    → are_bytes (a ∷ b ∷ c ∷ more) ≡ true
    → l2n3 (n2l3 a b c) rest ≡ a ∷ b ∷ c ∷ rest
same_three a b c more rest h =
    let p : a < 256 = ground (arith, h) in
    let q : b < 256 = ground (arith, h) in
    let r : c < 256 = ground (arith, h) in
    rw (top_byte a b c p q r, mid_byte a b c q r, low_byte a b c r) refl

same_two :
    (a b : ℕ) (more rest : List ℕ)
    → are_bytes (a ∷ b ∷ more) ≡ true
    → s2n (n2s a b) rest ≡ a ∷ b ∷ rest
same_two a b more rest h =
    let p : a < 256 = ground (arith, h) in
    let q : b < 256 = ground (arith, h) in rw (high_byte a b p q, last_byte a b q) refl

after_byte : (b : ℕ) (bs : List ℕ) → are_bytes (b ∷ bs) ≡ true → are_bytes bs ≡ true
after_byte b bs h = ground (arith, h)

after_two : (a b : ℕ) (bs : List ℕ) → are_bytes (a ∷ b ∷ bs) ≡ true → are_bytes bs ≡ true
after_two a b bs h = after_byte b bs (after_byte a (b ∷ bs) h)

after_three : (a b c : ℕ) (bs : List ℕ) → are_bytes (a ∷ b ∷ c ∷ bs) ≡ true → are_bytes bs ≡ true
after_three a b c bs h = after_two b c bs (after_byte a (b ∷ c ∷ bs) h)

-- `dtls1_write_message_header` gives back the twelve bytes from which `dtls1_get_message_header` has
-- read a header.
pub write-get :
    (t l1 l2 l3 s1 s2 o1 o2 o3 f1 f2 f3 : ℕ) (rest : List ℕ)
    → are_bytes (t ∷ l1 ∷ l2 ∷ l3 ∷ s1 ∷ s2 ∷ o1 ∷ o2 ∷ o3 ∷ f1 ∷ f2 ∷ f3 ∷ []) ≡ true
    → map_rewrite
        (get_message_header (t ∷ l1 ∷ l2 ∷ l3 ∷ s1 ∷ s2 ∷ o1 ∷ o2 ∷ o3 ∷ f1 ∷ f2 ∷ f3 ∷ rest))
      ≡ some (t ∷ l1 ∷ l2 ∷ l3 ∷ s1 ∷ s2 ∷ o1 ∷ o2 ∷ o3 ∷ f1 ∷ f2 ∷ f3 ∷ rest)
unfolding get_message_header write_message_header
write-get t l1 l2 l3 s1 s2 o1 o2 o3 f1 f2 f3 rest bytes =
    let frag = f1 ∷ f2 ∷ f3 ∷ [] in
    let off = o1 ∷ o2 ∷ o3 ∷ frag in
    let seq = s1 ∷ s2 ∷ off in
    let in_len = after_byte t (l1 ∷ l2 ∷ l3 ∷ seq) bytes in
    let in_seq = after_three l1 l2 l3 seq in_len in
    let in_off = after_two s1 s2 off in_seq in
    let in_frag = after_three o1 o2 o3 frag in_off in
    ap (λ tail. some (t ∷ l2n3 (n2l3 l1 l2 l3) (s2n (n2s s1 s2) (l2n3 (n2l3 o1 o2 o3) tail))))
      (same_three f1 f2 f3 [] rest in_frag)
    ∙ ap (λ tail. some (t ∷ l2n3 (n2l3 l1 l2 l3) (s2n (n2s s1 s2) tail)))
        (same_three o1 o2 o3 frag (f1 ∷ f2 ∷ f3 ∷ rest) in_off)
    ∙ ap (λ tail. some (t ∷ l2n3 (n2l3 l1 l2 l3) tail))
        (same_two s1 s2 off (o1 ∷ o2 ∷ o3 ∷ f1 ∷ f2 ∷ f3 ∷ rest) in_seq)
    ∙ ap (λ tail. some (t ∷ tail))
        (same_three l1 l2 l3 seq (s1 ∷ s2 ∷ o1 ∷ o2 ∷ o3 ∷ f1 ∷ f2 ∷ f3 ∷ rest) in_len)
