-- ===== src/Nts/AesSiv/Works.antt =====
-- AES-SIV while the crypto API works: the calls succeed, and what they return is the RFC 5297
-- construction from a CMAC and a key stream.
use esp32p4_nts_time_server.Base.{
  ℕ, ◌+◌, ◌-◌, ◌≤◌, ◌≡◌, refl, ap, suc, ap₂, sym, ◌∙◌, List, [], ◌∷◌, ◌++◌, true, Option, none,
  some, inl, inr, length, take, drop, arith, ok, esp_ok, leb, length-append, if◌then◌else◌,
  Bool-cases, take_all, take_prefix, drop_prefix,
}
use esp32p4_nts_time_server.Base.Bits.{bit_xor_cancel}
use esp32p4_nts_time_server.Base.Bytes.{zeros, overwrite}
use esp32p4_nts_time_server.Nts.AesSiv.{
  Psa, success, cmac_key, ctr_key, xor_bytes, xor_block, dbl_block, ctr_iv, xor_end, padded_block,
  aes_siv_s2v, aes_ctr_crypt, run_ctr, init, cmac_128, s2v_input, s2v_final, s2v_associated,
  s2v_nonce, import_cmac_key, import_ctr_key, psa_to_esp, encrypt, decrypt,
}
use esp32p4_nts_time_server.Nts.AesSiv.Safety.{
  encrypt_steps, decrypt_steps, constant_time_equal_same,
}

-- The API over a working CMAC `cm` (key, input) and a working CTR key stream `ks` (key, initial
-- counter, length): no call fails, a MAC has 16 bytes, and the cipher gives the exclusive or of
-- its input with the key stream, in one part or in two.
pub record Works (psa : Psa) (cm : List ℕ → List ℕ → List ℕ) (ks : List ℕ → List ℕ → ℕ → List ℕ)
    : Type 0 where
  pub init : psa.crypto_init ≡ success
  pub heap : (n : ℕ) → psa.malloc_succeeds n ≡ true
  pub cmac :
      (key input : List ℕ)
      → let (status, id) = psa.import_key cmac_key key in
        (status ≡ success) × (psa.mac_compute id input ≡ (success, cm key input, 16))
  pub cmac_length : (key input : List ℕ) → length (cm key input) ≡ 16
  pub ctr :
      (key iv input : List ℕ)
      → let (s0, id) = psa.import_key ctr_key key in
        let (s1, o1) = psa.cipher_encrypt_setup psa.operation_init id in
        let (s2, o2) = psa.cipher_set_iv o1 iv in
        let (s3, out, o3) = psa.cipher_update o2 input in
        let (s4, final) = psa.cipher_finish o3 in
        (s0 ≡ success)
        × (s1 ≡ success)
        × (s2 ≡ success)
        × (s3 ≡ success)
        × (s4 ≡ success)
        × (out ++ final ≡ xor_bytes input (ks key iv (length input)))
  pub stream_length : (key iv : List ℕ) (n : ℕ) → length (ks key iv n) ≡ n

length-xor_bytes : (xs ys : List ℕ) → length xs ≡ length ys → length (xor_bytes xs ys) ≡ length xs
length-xor_bytes [] ys h = refl
length-xor_bytes (x ∷ xs) [] h = absurd (omega arith)
length-xor_bytes (x ∷ xs) (y ∷ ys) h = ap suc (length-xor_bytes xs ys (omega arith))

xor_bytes_cancel : (xs ys : List ℕ) → length xs ≡ length ys → xor_bytes (xor_bytes xs ys) ys ≡ xs
xor_bytes_cancel [] ys h = refl
xor_bytes_cancel (x ∷ xs) [] h = absurd (omega arith)
xor_bytes_cancel (x ∷ xs) (y ∷ ys) h =
    ap₂ ◌∷◌ (bit_xor_cancel x y) (xor_bytes_cancel xs ys (omega arith))

-- S2V of RFC 5297 over a CMAC, on the associated data, the nonce and the plaintext.
module _ (mac : List ℕ → List ℕ) where
  abbrev pub absorbed : List ℕ → List ℕ → List ℕ
  absorbed d input = xor_block (dbl_block d) (mac input)

  unfoldable pub s2v_associated_value : List ℕ → List ℕ → List ℕ
  s2v_associated_value d [] = d
  s2v_associated_value d (b ∷ bs) = absorbed d (b ∷ bs)

  unfoldable pub s2v_nonce_value : List ℕ → Option (List ℕ) → List ℕ
  s2v_nonce_value d none = d
  s2v_nonce_value d (some nonce) = absorbed d (take 16 nonce)

  unfoldable pub s2v_value : List ℕ → Option (List ℕ) → List ℕ → List ℕ
  unfolding s2v_associated_value s2v_nonce_value
  s2v_value associated_data nonce plaintext =
      let d = s2v_nonce_value (s2v_associated_value (mac (zeros 16)) associated_data) nonce in
      if leb 16 (length plaintext)
      then mac (xor_end plaintext d)
      else mac (xor_block (padded_block plaintext) (dbl_block d))

module _ (psa : Psa) (cm : List ℕ → List ℕ → List ℕ) (ks : List ℕ → List ℕ → ℕ → List ℕ)
    (w : Works psa cm ks) where
  cmac_128-value : (key input : List ℕ) → cmac_128 psa key input ≡ ok (cm (take 16 key) input)
  unfolding cmac_128 import_cmac_key psa_to_esp
  cmac_128-value key input = ground (arith, w.cmac (take 16 key) input)

  ctr-value :
      (key siv input : List ℕ)
      → aes_ctr_crypt psa key siv input
        ≡ ok (xor_bytes input (ks (take 16 key) (ctr_iv siv) (length input)))
  unfolding aes_ctr_crypt import_ctr_key run_ctr psa_to_esp
  ctr-value key siv input = ground (
    arith,
    w.ctr (take 16 key) (ctr_iv siv) input,
    length-xor_bytes input (ks (take 16 key) (ctr_iv siv) (length input)),
    w.stream_length (take 16 key) (ctr_iv siv) (length input),
  )

  s2v_final-value :
      (key d plaintext : List ℕ)
      → s2v_final psa key d plaintext
        ≡ ok (
            if leb 16 (length plaintext)
            then cm (take 16 key) (xor_end plaintext d)
            else cm (take 16 key) (xor_block (padded_block plaintext) (dbl_block d)))
  unfolding s2v_final
  s2v_final-value key d plaintext = ground (
    arith,
    w.heap (length plaintext),
    cmac_128-value key (xor_end plaintext d),
    cmac_128-value key (xor_block (padded_block plaintext) (dbl_block d)),
  )

  s2v_input-value :
      (key d input : List ℕ) → s2v_input psa key d input ≡ ok (absorbed (cm (take 16 key)) d input)
  unfolding s2v_input
  s2v_input-value key d input = rw cmac_128-value

  s2v-value :
      (key ad : List ℕ) (nonce : Option (List ℕ)) (plaintext : List ℕ)
      → aes_siv_s2v psa key ad nonce plaintext
        ≡ ok (s2v_value (cm (take 16 key)) ad nonce plaintext)
  unfolding aes_siv_s2v s2v_associated s2v_nonce s2v_value
  s2v-value key [] none plaintext = simp (cmac_128-value, s2v_final-value)
  s2v-value key [] (some n) plaintext = simp (cmac_128-value, s2v_input-value, s2v_final-value)
  s2v-value key (b ∷ bs) none plaintext = simp (cmac_128-value, s2v_input-value, s2v_final-value)
  s2v-value key (b ∷ bs) (some n) plaintext =
      simp (cmac_128-value, s2v_input-value, s2v_final-value)

  s2v-length :
      (key ad : List ℕ) (nonce : Option (List ℕ)) (plaintext : List ℕ)
      → length (s2v_value (cm (take 16 key)) ad nonce plaintext) ≡ 16
  unfolding s2v_value
  s2v-length key ad n plaintext = elim (Bool-cases (leb 16 (length plaintext))) [
    | inl long ↦ rw long (w.cmac_length _ _)
    | inr short ↦ rw short (w.cmac_length _ _)
  ]

  init-ok : init psa ≡ ok tt
  unfolding init psa_to_esp
  init-ok = rw w.init

-- What a working encryption puts out: the S2V of its inputs, and the plaintext xored with the
-- key stream that starts at that S2V.
abbrev pub sealed :
    (List ℕ → List ℕ → List ℕ)
    → (List ℕ → List ℕ → ℕ → List ℕ)
    → List ℕ
    → List ℕ
    → Option (List ℕ)
    → List ℕ
    → List ℕ
sealed cm ks key ad nonce plaintext =
    let tag = s2v_value (cm (take 16 key)) ad nonce plaintext in
    tag ++ xor_bytes plaintext (ks (take 16 (drop 16 key)) (ctr_iv tag) (length plaintext))

module _ (cm : List ℕ → List ℕ → List ℕ) (ks : List ℕ → List ℕ → ℕ → List ℕ) (psa : Psa)
    (w : Works psa cm ks) (key ad : List ℕ) (nonce : Option (List ℕ)) (plaintext : List ℕ) where
  abbrev tag_of : List ℕ
  tag_of = s2v_value (cm (take 16 key)) ad nonce plaintext

  abbrev stream_of : List ℕ
  stream_of = ks (take 16 (drop 16 key)) (ctr_iv tag_of) (length plaintext)

  abbrev ciphertext_of : List ℕ
  ciphertext_of = xor_bytes plaintext stream_of

  tag-length : length tag_of ≡ 16
  tag-length = s2v-length psa cm ks w key ad nonce plaintext

  stream-length : length plaintext ≡ length stream_of
  stream-length = sym (w.stream_length (take 16 (drop 16 key)) (ctr_iv tag_of) (length plaintext))

  ciphertext-length : length ciphertext_of ≡ length plaintext
  ciphertext-length = length-xor_bytes plaintext stream_of stream-length

  drop-tag : drop 16 (tag_of ++ ciphertext_of) ≡ ciphertext_of
  drop-tag = drop_prefix 16 tag_of ciphertext_of tag-length

  take-tag : take 16 (tag_of ++ ciphertext_of) ≡ tag_of
  take-tag = take_prefix 16 tag_of ciphertext_of tag-length

  take-tag_self : take 16 tag_of ≡ tag_of
  take-tag_self = take_all 16 tag_of (omega (arith, tag-length))

  pub sealed-length : length (sealed cm ks key ad nonce plaintext) ≡ 16 + length plaintext
  sealed-length = omega (arith, length-append tag_of ciphertext_of, tag-length, ciphertext-length)

  -- The counter block depends on the first 16 bytes only.
  sealed-ctr_iv : ctr_iv (tag_of ++ ciphertext_of) ≡ ctr_iv tag_of
  unfolding ctr_iv
  sealed-ctr_iv = rw (take-tag, take-tag_self)

  -- With room for the tag and the ciphertext, encryption puts out both and their length, and
  -- changes nothing behind them.
  pub encrypt-Works :
      (buffer : List ℕ) (room : ℕ)
      → 16 + length plaintext ≤ room
      → encrypt psa key ad nonce plaintext buffer room ≡ record {
        status = esp_ok;
        output = overwrite buffer (sealed cm ks key ad nonce plaintext);
        output_len = 16 + length plaintext;
      }
  encrypt-Works buffer room fits =
      encrypt_steps psa key ad nonce plaintext buffer room tag_of ciphertext_of fits
        (init-ok psa cm ks w) (s2v-value psa cm ks w key ad nonce plaintext)
        (ctr-value psa cm ks w (drop 16 key) tag_of plaintext) take-tag_self

  ciphertext-back :
      aes_ctr_crypt psa (drop 16 key) (tag_of ++ ciphertext_of) (drop 16 (tag_of ++ ciphertext_of))
      ≡ ok plaintext
  ciphertext-back =
      rw
        (
          drop-tag,
          ctr-value psa cm ks w (drop 16 key) (tag_of ++ ciphertext_of) ciphertext_of,
          sealed-ctr_iv,
          ciphertext-length,
        )
        (ap ok (xor_bytes_cancel plaintext stream_of stream-length))

  -- Decryption of such an output with the same key, associated data and nonce gives the
  -- plaintext back.
  pub decrypt-Works :
      (buffer : List ℕ) (room : ℕ)
      → length plaintext ≤ room
      → decrypt psa key ad nonce (sealed cm ks key ad nonce plaintext) buffer room ≡ record {
        status = esp_ok;
        output = overwrite buffer plaintext;
        output_len = length plaintext;
      }
  decrypt-Works buffer room fits =
      decrypt_steps psa key ad nonce (tag_of ++ ciphertext_of) plaintext tag_of buffer room
        (omega (arith, sealed-length)) (omega (arith, sealed-length)) (init-ok psa cm ks w)
        ciphertext-back (s2v-value psa cm ks w key ad nonce plaintext)
        (constant_time_equal_same (tag_of ++ ciphertext_of) tag_of 16 (omega (arith, sealed-length))
          (omega (arith, tag-length)) (take-tag ∙ sym take-tag_self))
      ∙ (λ i. record { status = esp_ok; output = overwrite buffer plaintext; output_len = gone i })
    where
      gone : length (tag_of ++ ciphertext_of) - 16 ≡ length plaintext
      gone = omega (arith, sealed-length)

-- A packet that one working call sealed, another working call over the same CMAC and cipher
-- opens to the same plaintext, whatever the buffers held before.
pub decrypt-encrypt :
    (cm : List ℕ → List ℕ → List ℕ) (ks : List ℕ → List ℕ → ℕ → List ℕ) (psa psa' : Psa)
    → Works psa cm ks
    → Works psa' cm ks
    → (key ad : List ℕ) (nonce : Option (List ℕ)) (plaintext buffer buffer' : List ℕ)
      (room room' : ℕ)
    → 16 + length plaintext ≤ room
    → length plaintext ≤ room'
    → let e = encrypt psa key ad nonce plaintext buffer room in
      let d = decrypt psa' key ad nonce (take e.output_len e.output) buffer' room' in
      (e.status ≡ esp_ok) × (d.status ≡ esp_ok) × (take d.output_len d.output ≡ plaintext)
decrypt-encrypt cm ks psa psa' w w' key ad n plaintext buffer buffer' room room' fits fits' =
    let packet = sealed cm ks key ad n plaintext in
    let e = encrypt-Works cm ks psa w key ad n plaintext buffer room fits in
    let sent =
      take_prefix (16 + length plaintext) packet (drop (length packet) buffer)
        (sealed-length cm ks psa w key ad n plaintext) in
    let d = decrypt-Works cm ks psa' w' key ad n plaintext buffer' room' fits' in
    let got = take_prefix (length plaintext) plaintext (drop (length plaintext) buffer') refl in
    (ap (λ r. r.status) e, rw (e, sent) (ap (λ r. r.status) d), rw (e, sent, d) got)
