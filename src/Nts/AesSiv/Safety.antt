-- ===== src/Nts/AesSiv/Safety.antt =====
-- What an AES-SIV call guarantees whatever the crypto API answers.
use esp32p4_nts_time_server.Base.{
  ℕ, zero, suc, ◌+◌, ◌-◌, ◌≤◌, ◌≡◌, ◌↔◌, refl, ap₂, ◌⊎◌, inl, inr, List, [], ◌∷◌, ◌++◌, true,
  Option, none, some, length, take, drop, arith, ok, err, Result, esp_ok, EspErr, ltb, invalid_size,
  bit_or, bit_xor, ◌||◌, Bool-cases, u8, Result-cases, >>=-eq-ok, leb, take_all, invalid_crc,
}
use esp32p4_nts_time_server.Base.Bits.{bit_xor-lt, bit_xor-eq-zero, bit_xor_same, bit_or-eq-zero}
use esp32p4_nts_time_server.Base.Bytes.{IsBytes, zeros, overwrite}
use esp32p4_nts_time_server.Nts.AesSiv.{
  Psa, constant_time_equal, differences, aes_siv_s2v, aes_ctr_crypt, init, cmac_128, s2v_final,
  s2v_associated, s2v_nonce, import_cmac_key, psa_to_esp, xor_end, xor_block, padded_block,
  dbl_block, open_sealed, encrypt, decrypt,
}

-- The accumulated difference is 0 exactly where every pair of bytes is equal.
differences_zero :
    (n : ℕ) (left right : List ℕ) (d : ℕ)
    → IsBytes left
    → IsBytes right
    → n ≤ length left
    → n ≤ length right
    → differences n left right d ≡ 0
    → (d ≡ 0) × (take n left ≡ take n right)
unfolding differences
differences_zero zero l r d hl hr bl br e = (e, refl)
differences_zero (suc n) [] r d hl hr bl br e = absurd (omega arith)
differences_zero (suc n) (x ∷ l) [] d hl hr bl br e = absurd (omega arith)
differences_zero (suc n) (x ∷ l) (y ∷ r) d hl hr bl br e =
    let rest =
      differences_zero n l r (bit_or d (u8 (bit_xor x y))) hl.1 hr.1 (omega arith) (omega arith)
        e in
    let both = bit_or-eq-zero d (u8 (bit_xor x y)) rest.0 in
    let small = bit_xor-lt 8 x y hl.0 hr.0 in
    (both.0, ap₂ ◌∷◌ (bit_xor-eq-zero x y (omega arith)) rest.1)

differences_same :
    (n : ℕ) (left right : List ℕ)
    → n ≤ length left
    → n ≤ length right
    → take n left ≡ take n right
    → differences n left right 0 ≡ 0
unfolding differences
differences_same zero l r bl br e = refl
differences_same (suc n) [] r bl br e = absurd (omega arith)
differences_same (suc n) (x ∷ l) [] bl br e = absurd (omega arith)
differences_same (suc n) (x ∷ l) (y ∷ r) bl br e =
    let same : x ≡ y = cc in
    let rest : take n l ≡ take n r = cc in
    rw (same, bit_xor_same) (differences_same n l r (omega arith) (omega arith) rest)

pub constant_time_equal_same :
    (left right : List ℕ) (n : ℕ)
    → n ≤ length left
    → n ≤ length right
    → take n left ≡ take n right
    → constant_time_equal left right n ≡ true
unfolding constant_time_equal
constant_time_equal_same left right n bl br e =
    ground (arith, differences_same n left right bl br e)

-- `constant_time_equal` decides whether the first `n` bytes of two buffers are the same.
pub constant_time_equal_iff :
    (left right : List ℕ) (n : ℕ)
    → IsBytes left
    → IsBytes right
    → n ≤ length left
    → n ≤ length right
    → (constant_time_equal left right n ≡ true) ↔ (take n left ≡ take n right)
unfolding constant_time_equal
constant_time_equal_iff left right n hl hr bl br = (
  λ e. (differences_zero n left right 0 hl hr bl br (ground arith)).1,
  constant_time_equal_same left right n bl br,
)

module _ (psa : Psa) (key ad : List ℕ) (nonce : Option (List ℕ)) where
  abbrev S2v : List ℕ → Result (List ℕ)
  S2v = aes_siv_s2v psa key ad nonce

  abbrev Ctr : List ℕ → Result (List ℕ)
  Ctr input = aes_ctr_crypt psa (drop 16 key) input (drop 16 input)

  -- The three ways that a decryption ends behind its checks of the lengths.
  abbrev Opened : List ℕ → Type 0
  Opened input =
      ((e : EspErr) × (open_sealed psa key ad nonce input ≡ (err e, none)))
      ⊎ ((e : EspErr) × (open_sealed psa key ad nonce input
            ≡ (err e, some (zeros (length (drop 16 input))))))
      ⊎ ((plaintext tag : List ℕ) × (open_sealed psa key ad nonce input ≡ (esp_ok, some plaintext))
          × (Ctr input ≡ ok plaintext)
          × (S2v plaintext ≡ ok tag)
          × (constant_time_equal input tag 16 ≡ true))

  opened : (input : List ℕ) → Opened input
  unfolding open_sealed
  opened input = elim (Result-cases (init psa)) [
    | inr (e, h) ↦ inl (e, ground arith)
    | inl (_, h) ↦ elim (Result-cases (Ctr input)) [
      | inr (e, k) ↦ inr (inl (e, ground arith))
      | inl (p, k) ↦ elim (Result-cases (S2v p)) [
        | inr (e, m) ↦ inr (inl (e, ground arith))
        | inl (tag, m) ↦ elim (Bool-cases (constant_time_equal input tag 16)) [
          | inl t ↦ inr (inr (p, tag, ground arith, k, m, t))
          | inr f ↦ inr (inl (invalid_crc, ground arith))
        ]
      ]
    ]
  ]

  -- A decryption that does not succeed gives out nothing: the plaintext buffer is as it was, or
  -- its first bytes, as many as the ciphertext has, are zero and the others are as they were.
  pub decrypt_failure_wipes :
      (input buffer : List ℕ) (room : ℕ)
      → let r = decrypt psa key ad nonce input buffer room in
        (r.status ≡ esp_ok)
        ⊎ ((e : EspErr) × (r.status ≡ err e)
            × ((r.output ≡ buffer)
                ⊎ (r.output ≡ overwrite buffer (zeros (length (drop 16 input))))))
  unfolding decrypt
  decrypt_failure_wipes input buffer room =
      elim (Bool-cases (ltb (length input) 16 || ltb room (length input - 16))) [
        | inl short ↦ inr (invalid_size, ground arith, inl (ground arith))
        | inr enough ↦ elim (opened input) [
          | inl (e, h) ↦ inr (e, ground arith, inl (ground arith))
          | inr (inl (e, h)) ↦ inr (e, ground arith, inr (ground arith))
          | inr (inr (p, tag, h, _, _, _)) ↦ inl (ground arith)
        ]
      ]

module _ (psa : Psa) (key ad : List ℕ) (nonce : Option (List ℕ)) where
  -- A call in which every step succeeds.
  pub encrypt_steps :
      (plaintext buffer : List ℕ) (room : ℕ) (tag ciphertext : List ℕ)
      → 16 + length plaintext ≤ room
      → init psa ≡ ok tt
      → aes_siv_s2v psa key ad nonce plaintext ≡ ok tag
      → aes_ctr_crypt psa (drop 16 key) tag plaintext ≡ ok ciphertext
      → take 16 tag ≡ tag
      → encrypt psa key ad nonce plaintext buffer room ≡ record {
        status = esp_ok;
        output = overwrite buffer (tag ++ ciphertext);
        output_len = 16 + length plaintext;
      }
  unfolding encrypt
  encrypt_steps plaintext buffer room tag ciphertext fits h1 h2 h3 h4 = ground arith

  pub decrypt_steps :
      (input plaintext tag buffer : List ℕ) (room : ℕ)
      → 16 ≤ length input
      → length input ≤ 16 + room
      → init psa ≡ ok tt
      → aes_ctr_crypt psa (drop 16 key) input (drop 16 input) ≡ ok plaintext
      → aes_siv_s2v psa key ad nonce plaintext ≡ ok tag
      → constant_time_equal input tag 16 ≡ true
      → decrypt psa key ad nonce input buffer room ≡ record {
        status = esp_ok;
        output = overwrite buffer plaintext;
        output_len = length input - 16;
      }
  unfolding decrypt open_sealed
  decrypt_steps input plaintext tag buffer room fits room_fits h1 h2 h3 h4 = ground arith

-- The output of a MAC is a buffer of 16 bytes.
abbrev pub MacIsBlock : Psa → Type 0
MacIsBlock psa =
    (id : ℕ) (input : List ℕ)
    → let (_, mac, _) = psa.mac_compute id input in IsBytes mac × (length mac ≡ 16)

module _ (psa : Psa) (block : MacIsBlock psa) where
  cmac_128-block :
      (key input : List ℕ) {mac : List ℕ}
      → cmac_128 psa key input ≡ ok mac
      → IsBytes mac × (length mac ≡ 16)
  unfolding cmac_128
  cmac_128-block key input {mac} h =
      let (id, _, h1) = >>=-eq-ok (import_cmac_key psa key) _ h in
      let (_, _, h2) = >>=-eq-ok (psa_to_esp (psa.mac_compute id input).0) _ h1 in
      let same : (psa.mac_compute id input).1 ≡ mac = ground arith in rw (← same) (block id input)

  s2v_final-block :
      (key d plaintext : List ℕ) {tag : List ℕ}
      → s2v_final psa key d plaintext ≡ ok tag
      → IsBytes tag × (length tag ≡ 16)
  unfolding s2v_final
  s2v_final-block key d plaintext h = elim (Bool-cases (leb 16 (length plaintext))) [
    | inl long ↦ elim (Bool-cases (psa.malloc_succeeds (length plaintext))) [
      | inl room ↦ cmac_128-block key (xor_end plaintext d) (ground arith)
      | inr full ↦ absurd (ground arith)
    ]
    | inr short ↦
        cmac_128-block key (xor_block (padded_block plaintext) (dbl_block d)) (ground arith)
  ]

  s2v-block :
      (key ad : List ℕ) (nonce : Option (List ℕ)) (plaintext : List ℕ) {tag : List ℕ}
      → aes_siv_s2v psa key ad nonce plaintext ≡ ok tag
      → IsBytes tag × (length tag ≡ 16)
  unfolding aes_siv_s2v
  s2v-block key ad nonce plaintext h =
      let (d0, _, h1) = >>=-eq-ok (cmac_128 psa key (zeros 16)) _ h in
      let (d1, _, h2) = >>=-eq-ok (s2v_associated psa key d0 ad) _ h1 in
      let (d2, _, h3) = >>=-eq-ok (s2v_nonce psa key d1 nonce) _ h2 in
      s2v_final-block key d2 plaintext h3

  -- A decryption that succeeds has authenticated what it gives out: the plaintext is what the
  -- cipher makes of the ciphertext, the tag in front of the ciphertext is the S2V of that
  -- plaintext, the associated data and the nonce, and the length is that of the ciphertext.
  pub decrypt_authentic :
      (key ad : List ℕ) (nonce : Option (List ℕ)) (input buffer : List ℕ) (room : ℕ)
      → IsBytes input
      → let r = decrypt psa key ad nonce input buffer room in
        r.status ≡ esp_ok
        → (plaintext : List ℕ) × (aes_ctr_crypt psa (drop 16 key) input (drop 16 input)
            ≡ ok plaintext)
          × (aes_siv_s2v psa key ad nonce plaintext ≡ ok (take 16 input))
          × (r.output ≡ overwrite buffer plaintext)
          × (r.output_len ≡ length input - 16)
  unfolding decrypt
  decrypt_authentic key ad nonce input buffer room bytes h =
      elim (Bool-cases (ltb (length input) 16 || ltb room (length input - 16))) [
        | inl short ↦ absurd (ground arith)
        | inr enough ↦ elim (opened psa key ad nonce input) [
          | inl (e, q) ↦ absurd (ground arith)
          | inr (inl (e, q)) ↦ absurd (ground arith)
          | inr (inr (p, tag, q, c, s, t)) ↦
              let b = s2v-block key ad nonce p s in
              let same =
                (constant_time_equal_iff input tag 16 bytes b.0 (ground arith) (omega arith)).0 t in
              let whole : take 16 tag ≡ tag = take_all 16 tag (omega arith) in
              (p, c, rw (same, whole) s, ground arith, ground arith)
        ]
      ]
