-- ===== src/Nts/AesSiv.antt =====
-- main/nts_aes_siv.c: AEAD_AES_SIV_CMAC_256 over the PSA crypto API. The API is the parameter
-- `psa`: how it answers for the length of one call. A buffer that the code passes with its
-- length is the list of its bytes; the copies of secrets on the stack, which the code wipes
-- before it returns, are not part of any result. A null nonce is `none`.
pub mod Blocks
pub mod Works
pub mod Safety
mod Tests
use esp32p4_nts_time_server.Base.{
  ℕ, zero, suc, ◌+◌, ◌-◌, ◌*◌, ◌/◌, ◌%◌, ◌^◌, List, [], ◌∷◌, ◌++◌, Bool, true, false, not, Option,
  none, some, length, take, drop, set, ltb, leb, ◌==◌, if◌then◌else◌, u8, ◌<<<◌, ◌>>>◌, bit_and,
  bit_or, bit_xor, Result, ok, err, ◌>>=◌, ◌>>◌, EspErr, Status, esp_ok, fail, no_mem, invalid_arg,
  invalid_size, invalid_crc, not_supported,
}
use esp32p4_nts_time_server.Base.Bytes.{byte_at, zeros, overwrite}

abbrev pub tag_len : ℕ
tag_len = 16

pub data PsaStatus : Type 0 where
  success error_not_supported error_invalid_argument error_invalid_handle error_buffer_too_small
        error_insufficient_memory error_insufficient_storage error_other :
      PsaStatus

-- The two sets of key attributes that the code imports keys with.
pub data KeyUse : Type 0 where
  cmac_key ctr_key : KeyUse

-- What the file calls of psa/crypto.h and of the heap. `mac_compute` gives the status, the
-- output buffer and the length; the cipher calls give what they wrote and the new operation.
pub record Psa : Type 1 where
  pub Operation : Type 0
  pub operation_init : Operation
  pub crypto_init : PsaStatus
  pub import_key : KeyUse → List ℕ → PsaStatus × ℕ
  pub mac_compute : ℕ → List ℕ → PsaStatus × List ℕ × ℕ
  pub cipher_encrypt_setup : Operation → ℕ → PsaStatus × Operation
  pub cipher_set_iv : Operation → List ℕ → PsaStatus × Operation
  pub cipher_update : Operation → List ℕ → PsaStatus × List ℕ × Operation
  pub cipher_finish : Operation → PsaStatus × List ℕ
  pub malloc_succeeds : ℕ → Bool

unfoldable pub psa_to_esp : PsaStatus → Status
psa_to_esp success = ok tt
psa_to_esp error_not_supported = err not_supported
psa_to_esp error_invalid_argument = err invalid_arg
psa_to_esp error_invalid_handle = err invalid_arg
psa_to_esp error_buffer_too_small = err invalid_size
psa_to_esp error_insufficient_memory = err no_mem
psa_to_esp error_insufficient_storage = err no_mem
psa_to_esp error_other = err fail

-- The exclusive or of two byte strings, up to the end of the shorter one.
abbrev pub xor_bytes : List ℕ → List ℕ → List ℕ
xor_bytes [] ys = []
xor_bytes (x ∷ xs) [] = []
xor_bytes (x ∷ xs) (y ∷ ys) = bit_xor x y ∷ xor_bytes xs ys

unfoldable pub xor_block : List ℕ → List ℕ → List ℕ
xor_block left right = xor_bytes (take 16 left) (take 16 right)

-- The loop of `dbl_block`, which runs from the last byte to the first: the bytes so far and the
-- carry out of them.
unfoldable pub shift_left : List ℕ → List ℕ × ℕ
shift_left [] = ([], 0)
shift_left (b ∷ bs) =
    let (output, carry) = shift_left bs in
    (u8 (bit_or (b <<< 1) carry) ∷ output, u8 (bit_and (b >>> 7) 0x01))

unfoldable pub dbl_block : List ℕ → List ℕ
dbl_block input =
    let (output, carry) = shift_left (take 16 input) in
    if carry == 0 then output else set output 15 (bit_xor (byte_at output 15) 0x87)

-- The loop of `constant_time_equal` over the next `n` bytes.
unfoldable pub differences : ℕ → List ℕ → List ℕ → ℕ → ℕ
differences zero left right difference = difference
differences (suc n) left right difference =
    differences n (drop 1 left) (drop 1 right)
      (bit_or difference (u8 (bit_xor (byte_at left 0) (byte_at right 0))))

unfoldable pub constant_time_equal : List ℕ → List ℕ → ℕ → Bool
constant_time_equal left right n = differences n left right 0 == 0

-- CTR IV processing: two bits of the synthetic IV are cleared.
unfoldable pub ctr_iv : List ℕ → List ℕ
ctr_iv siv =
    let iv = take 16 siv in
    let cleared = set iv 8 (bit_and (byte_at iv 8) 0x7f) in
    set cleared 12 (bit_and (byte_at cleared 12) 0x7f)

-- The last 16 bytes of a plaintext of 16 bytes or more, xored with `d`.
unfoldable pub xor_end : List ℕ → List ℕ → List ℕ
xor_end plaintext d =
    let n = length plaintext - 16 in take n plaintext ++ xor_bytes (drop n plaintext) (take 16 d)

-- A shorter plaintext, with 0x80 and zeros behind it.
unfoldable pub padded_block : List ℕ → List ℕ
padded_block plaintext = plaintext ++ (0x80 ∷ zeros (15 - length plaintext))

-- What `nts_aes_siv_encrypt` and `nts_aes_siv_decrypt` leave: the return value, the output
-- buffer, and its length variable.
pub record SivResult : Type 0 where
  pub status : Status
  pub output : List ℕ
  pub output_len : ℕ

module _ (psa : Psa) where
  open psa use {
    Operation, operation_init, crypto_init, import_key, mac_compute, cipher_encrypt_setup,
    cipher_set_iv, cipher_update, cipher_finish, malloc_succeeds,
  }

  unfoldable pub import_cmac_key : List ℕ → Result ℕ
  import_cmac_key key =
      let (status, key_id) = import_key cmac_key (take 16 key) in psa_to_esp status >> ok key_id

  unfoldable pub import_ctr_key : List ℕ → Result ℕ
  import_ctr_key key =
      let (status, key_id) = import_key ctr_key (take 16 key) in psa_to_esp status >> ok key_id

  unfoldable pub cmac_128 : List ℕ → List ℕ → Result (List ℕ)
  cmac_128 key input = do
    key_id ← import_cmac_key key
    let (status, mac, mac_len) = mac_compute key_id input
    psa_to_esp status
    if mac_len == 16 then ok mac else err fail

  -- A call of the cipher goes on only while the status is PSA_SUCCESS.
  unfoldable pub run_ctr : ℕ → List ℕ → List ℕ → PsaStatus × List ℕ
  run_ctr key_id iv input =
      let (s1, o1) = cipher_encrypt_setup operation_init key_id in
      elim s1 [
        | success ↦
            let (s2, o2) = cipher_set_iv o1 iv in
            elim s2 [
              | success ↦
                  let (s3, out, o3) = cipher_update o2 input in
                  elim s3 [
                    | success ↦ let (s4, final) = cipher_finish o3 in (s4, out ++ final)
                    | s ↦ (s, out)
                  ]
              | s ↦ (s, [])
            ]
        | s ↦ (s, [])
      ]

  unfoldable pub aes_ctr_crypt : List ℕ → List ℕ → List ℕ → Result (List ℕ)
  aes_ctr_crypt key siv input = do
    key_id ← import_ctr_key key
    let (status, output) = run_ctr key_id (ctr_iv siv) input
    psa_to_esp status
    if length output == length input then ok output else err fail

  -- One input of S2V: `d` becomes dbl(d) xor CMAC(input).
  unfoldable pub s2v_input : List ℕ → List ℕ → List ℕ → Result (List ℕ)
  s2v_input key d input = do
    cmac_value ← cmac_128 key input
    ok (xor_block (dbl_block d) cmac_value)

  unfoldable pub s2v_associated : List ℕ → List ℕ → List ℕ → Result (List ℕ)
  s2v_associated key d [] = ok d
  s2v_associated key d (b ∷ bs) = s2v_input key d (b ∷ bs)

  unfoldable pub s2v_nonce : List ℕ → List ℕ → Option (List ℕ) → Result (List ℕ)
  s2v_nonce key d none = ok d
  s2v_nonce key d (some nonce) = s2v_input key d (take 16 nonce)

  unfoldable pub s2v_final : List ℕ → List ℕ → List ℕ → Result (List ℕ)
  s2v_final key d plaintext =
      if leb 16 (length plaintext)
      then (if malloc_succeeds (length plaintext)
          then cmac_128 key (xor_end plaintext d)
          else err no_mem)
      else cmac_128 key (xor_block (padded_block plaintext) (dbl_block d))

  unfoldable pub aes_siv_s2v : List ℕ → List ℕ → Option (List ℕ) → List ℕ → Result (List ℕ)
  aes_siv_s2v key associated_data nonce plaintext = do
    d0 ← cmac_128 key (zeros 16)
    d1 ← s2v_associated key d0 associated_data
    d2 ← s2v_nonce key d1 nonce
    s2v_final key d2 plaintext

  unfoldable pub init : Status
  init = psa_to_esp crypto_init

  -- The buffer `output` of `nts_aes_siv_encrypt` has room for `output_len` bytes.
  unfoldable pub encrypt : List ℕ → List ℕ → Option (List ℕ) → List ℕ → List ℕ → ℕ → SivResult
  encrypt key associated_data nonce plaintext output output_len =
      let required_len = tag_len + length plaintext in
      let unchanged : EspErr → SivResult =
        λ e. record { status = err e; output = output; output_len = output_len } in
      if ltb output_len required_len
      then record { status = err invalid_size; output = output; output_len = required_len }
      else elim init [
        | err e ↦ unchanged e
        | ok _ ↦ elim (aes_siv_s2v key associated_data nonce plaintext) [
          | err e ↦ unchanged e
          | ok tag ↦ elim (aes_ctr_crypt (drop 16 key) tag plaintext) [
            | err e ↦ record {
              status = err e;
              output = overwrite output (zeros required_len);
              output_len = output_len;
            }
            | ok ciphertext ↦ record {
              status = esp_ok;
              output = overwrite output (take 16 tag ++ ciphertext);
              output_len = required_len;
            }
          ]
        ]
      ]

  -- The part of `nts_aes_siv_decrypt` behind its checks of the lengths: the status, and what
  -- stands in the first bytes of the plaintext buffer (`none` for what stood there before).
  unfoldable pub open_sealed : List ℕ → List ℕ → Option (List ℕ) → List ℕ → Status × Option (List ℕ)
  open_sealed key associated_data nonce input =
      let ciphertext = drop tag_len input in
      let wiped = some (zeros (length ciphertext)) in
      elim init [
        | err e ↦ (err e, none)
        | ok _ ↦ elim (aes_ctr_crypt (drop 16 key) input ciphertext) [
          | err e ↦ (err e, wiped)
          | ok plaintext ↦ elim (aes_siv_s2v key associated_data nonce plaintext) [
            | err e ↦ (err e, wiped)
            | ok expected_tag ↦
                if constant_time_equal input expected_tag 16
                then (esp_ok, some plaintext)
                else (err invalid_crc, wiped)
          ]
        ]
      ]

  unfoldable pub decrypt : List ℕ → List ℕ → Option (List ℕ) → List ℕ → List ℕ → ℕ → SivResult
  decrypt key associated_data nonce input plaintext plaintext_len =
      let ciphertext_len = length input - tag_len in
      if ltb (length input) tag_len
      then record { status = err invalid_size; output = plaintext; output_len = plaintext_len }
      else if ltb plaintext_len ciphertext_len
      then record { status = err invalid_size; output = plaintext; output_len = ciphertext_len }
      else let (result, written) = open_sealed key associated_data nonce input in
        record {
          status = result;
          output = elim written [ none ↦ plaintext | some bytes ↦ overwrite plaintext bytes ];
          output_len = elim result [ ok _ ↦ ciphertext_len | err e ↦ plaintext_len ];
        }
