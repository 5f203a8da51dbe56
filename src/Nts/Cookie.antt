-- ===== src/Nts/Cookie.antt =====
-- main/nts_cookie.c: the cookies that carry the keys of a client, sealed under a master key of
-- the ring. `psa` is the crypto API of AesSiv and `nvs` the storage of Keyring. A function that
-- asks for the time twice takes two answers, since time may pass between them.
pub mod Wire
pub mod Unpack
pub mod Trip
pub mod Life
mod Tests
use esp32p4_nts_time_server.Base.{
  ℕ, zero, suc, ◌+◌, ◌*◌, List, [], ◌∷◌, ◌++◌, Bool, true, false, not, ◌&&◌, ◌||◌, Option, none,
  some, length, take, drop, ltb, leb, ◌==◌, if◌then◌else◌, bit_or, u8, u64, ◌<<<◌, ◌>>>◌, Result,
  ok, err, EspErr, Status, esp_ok, invalid_arg, invalid_state, invalid_size, invalid_response,
  not_found,
}
use esp32p4_nts_time_server.Base.Bytes.{
  byte_at, zeros, overwrite, read_be16, read_be32, be16_bytes, be32_bytes,
}
use esp32p4_nts_time_server.Nts.AesSiv.{Psa, encrypt, decrypt}
use esp32p4_nts_time_server.Nts.Keyring.{
  CookieKey, Keyring, slots, Nvs, Memory, maintain_cookie_keyring, load_cookie_keyring,
}

-- `nts_cookie_keys_t`
pub record CookieKeys : Type 0 where
  pub c2s_key : List ℕ
  pub s2c_key : List ℕ
  pub master_key_id : ℕ
  pub issued_ntp_seconds : ℕ
  pub expires_ntp_seconds : ℕ

abbrev pub cookie_magic : ℕ
cookie_magic = 0x4E545343

abbrev pub plaintext_len : ℕ
plaintext_len = 92

abbrev pub wire_prefix_len : ℕ
wire_prefix_len = 20

abbrev pub required_len : ℕ
required_len = 128

-- The last `n` of the bytes that `write_u64_be` stores.
unfoldable pub low_bytes : ℕ → ℕ → List ℕ
low_bytes zero value = []
low_bytes (suc n) value = u8 (value >>> (n * 8)) ∷ low_bytes n value

unfoldable pub be64_bytes : ℕ → List ℕ
be64_bytes value = low_bytes 8 value

-- The loop of `read_u64_be` over the next `n` bytes.
unfoldable pub read_bytes : ℕ → List ℕ → ℕ → ℕ
read_bytes zero source value = value
read_bytes (suc n) source value =
    read_bytes n (drop 1 source) (bit_or (u64 (value <<< 8)) (byte_at source 0))

unfoldable pub read_be64 : List ℕ → ℕ
read_be64 source = read_bytes 8 source 0

-- `memset` or `nts_storage_zeroize` of the keys.
abbrev pub zero_keys : CookieKeys
zero_keys = record {
  c2s_key = zeros 32;
  s2c_key = zeros 32;
  master_key_id = 0;
  issued_ntp_seconds = 0;
  expires_ntp_seconds = 0;
}

-- A valid slot with the id, the first in the order of the slots.
unfoldable pub find_in : List CookieKey → ℕ → Option CookieKey
find_in [] key_id = none
find_in (slot ∷ rest) key_id =
    if not (slot.valid == 0) && slot.key_id == key_id then some slot else find_in rest key_id

unfoldable pub find_cookie_master_key : Keyring → ℕ → Option CookieKey
find_cookie_master_key keyring key_id = find_in (slots keyring) key_id

unfoldable pub get_active_cookie_master_key : Keyring → Option CookieKey
get_active_cookie_master_key keyring =
    if keyring.active.valid == 0 then none else some keyring.active

-- The plaintext of a cookie, whose fields add up to 92 bytes.
unfoldable pub payload : ℕ → CookieKeys → List ℕ
payload key_id keys =
    be32_bytes cookie_magic
    ++ be16_bytes 1
    ++ be16_bytes 0
    ++ be32_bytes key_id
    ++ be64_bytes keys.issued_ntp_seconds
    ++ be64_bytes keys.expires_ntp_seconds
    ++ take 32 keys.c2s_key
    ++ take 32 keys.s2c_key

-- The test of the fields in front of the times.
unfoldable pub wrong_header : ℕ → List ℕ → Bool
wrong_header master_key_id plaintext =
    not (read_be32 plaintext == cookie_magic)
    || not (read_be16 (drop 4 plaintext) == 1)
    || not (read_be16 (drop 6 plaintext) == 0)
    || not (read_be32 (drop 8 plaintext) == master_key_id)

-- The end of `nts_cookie_unpack`, behind the decryption: `clock` is the answer of
-- `current_ntp_seconds`, and `keys` what the out-parameter held.
unfoldable pub unpack_payload : ℕ → Option ℕ → List ℕ → CookieKeys → Status × CookieKeys
unpack_payload master_key_id clock plaintext keys =
    let issued = read_be64 (drop 12 plaintext) in
    let expires = read_be64 (drop 20 plaintext) in
    if wrong_header master_key_id plaintext then (err invalid_response, keys) else elim clock [
      | none ↦ (err invalid_state, keys)
      | some now ↦ if leb expires now || ltb now issued then (err invalid_state, keys) else (
        esp_ok,
        record {
          c2s_key = take 32 (drop 28 plaintext);
          s2c_key = take 32 (drop 60 plaintext);
          master_key_id = master_key_id;
          issued_ntp_seconds = issued;
          expires_ntp_seconds = expires;
        },
      )
    ]

-- The random bytes and the clock of a call that makes several cookies: for the cookie of index `i` the keys that a rotation
-- draws, the nonce, and the time.
pub record Draws : Type 0 where
  pub rotation : ℕ → ℕ → List ℕ
  pub nonce : ℕ → List ℕ
  pub clock : ℕ → Option ℕ

module _ (psa : Psa) where
  -- The end of `nts_cookie_create`, from the plaintext on: the buffer has room.
  unfoldable pub seal_cookie : CookieKey → List ℕ → CookieKeys → List ℕ → ℕ → Status × List ℕ × ℕ
  seal_cookie master nonce_bytes keys cookie cookie_len =
      let header = be32_bytes master.key_id in
      let r =
        encrypt psa master.key header (some nonce_bytes) (payload master.key_id keys)
          (drop wire_prefix_len cookie) (16 + plaintext_len) in
      elim r.status [
        | err e ↦ (err e, overwrite cookie (zeros required_len), cookie_len)
        | ok _ ↦ (esp_ok, header ++ (nonce_bytes ++ r.output), wire_prefix_len + r.output_len)
      ]

  -- `nts_cookie_unpack` with a key of the ring: the decryption, and the checks behind it.
  unfoldable pub open_cookie : CookieKey → Option ℕ → List ℕ → CookieKeys → Status × CookieKeys
  open_cookie master clock cookie keys =
      let r =
        decrypt psa master.key (take 4 cookie) (some (take 16 (drop 4 cookie)))
          (drop wire_prefix_len cookie) (zeros plaintext_len) plaintext_len in
      elim r.status [
        | err e ↦ (err e, keys)
        | ok _ ↦
            if not (r.output_len == plaintext_len)
            then (err invalid_size, keys)
            else unpack_payload (read_be32 cookie) clock r.output keys
      ]

-- What `nts_cookie_create` leaves: the buffer, its length variable, and the storage.
pub record Created (nvs : Nvs) : Type 0 where
  pub status : Status
  pub cookie : List ℕ
  pub cookie_len : ℕ
  pub memory : Memory nvs

-- What `nts_cookie_generate_keys` and `nts_cookie_unpack` leave.
pub record Keyed (nvs : Nvs) : Type 0 where
  pub status : Status
  pub keys : CookieKeys
  pub memory : Memory nvs

module _ (nvs : Nvs) where
  -- The beginning of all three functions: maintenance, then the ring.
  unfoldable pub current_keyring :
      (ℕ → List ℕ) → Option ℕ → Memory nvs → Result Keyring × Memory nvs
  current_keyring random clock m =
      let (maintained, m') = maintain_cookie_keyring nvs random clock m in
      elim maintained [ err e ↦ (err e, m') | ok _ ↦ load_cookie_keyring nvs m' ]

  -- `c2s` and `s2c` are the two blocks of 32 random bytes.
  unfoldable pub generate_keys :
      (ℕ → List ℕ) → List ℕ → List ℕ → Option ℕ → Option ℕ → ℕ → CookieKeys → Memory nvs → Keyed nvs
  generate_keys random c2s s2c clock clock' lifetime_seconds keys m =
      let (loaded, m') = current_keyring random clock m in
      let result : Status → CookieKeys → Memory nvs → Keyed nvs =
        λ s k n. record { status = s; keys = k; memory = n } in
      if lifetime_seconds == 0 then result (err invalid_arg) keys m else elim loaded [
        | err e ↦ result (err e) keys m'
        | ok keyring ↦ elim (get_active_cookie_master_key keyring) [
          | none ↦ result (err not_found) keys m'
          | some active ↦ elim clock' [
            | none ↦ result (err invalid_state) zero_keys m'
            | some now ↦
                result esp_ok
                  (record {
                    c2s_key = c2s;
                    s2c_key = s2c;
                    master_key_id = active.key_id;
                    issued_ntp_seconds = now;
                    expires_ntp_seconds = u64 (now + lifetime_seconds);
                  })
                  m'
          ]
        ]
      ]

  module _ (psa : Psa) where
    -- `nonce_bytes` is the block of 16 random bytes.
    unfoldable pub create :
        (ℕ → List ℕ) → List ℕ → Option ℕ → CookieKeys → List ℕ → ℕ → Memory nvs → Created nvs
    create random nonce_bytes clock keys cookie cookie_len m =
        let (loaded, m') = current_keyring random clock m in
        let result : Status × List ℕ × ℕ → Created nvs =
          λ r. record { status = r.0; cookie = r.1; cookie_len = r.2; memory = m' } in
        elim loaded [
          | err e ↦ result (err e, cookie, cookie_len)
          | ok keyring ↦ elim (get_active_cookie_master_key keyring) [
            | none ↦ result (err not_found, cookie, cookie_len)
            | some master ↦
                if ltb cookie_len required_len
                then result (err invalid_size, cookie, required_len)
                else result (seal_cookie psa master nonce_bytes keys cookie cookie_len)
          ]
        ]

    -- `cookie` is the bytes that the length covers.
    unfoldable pub unpack :
        (ℕ → List ℕ) → Option ℕ → Option ℕ → List ℕ → CookieKeys → Memory nvs → Keyed nvs
    unpack random clock clock' cookie keys m =
        let (loaded, m') = current_keyring random clock m in
        if not (length cookie == required_len)
        then record { status = err invalid_size; keys = keys; memory = m }
        else elim loaded [
          | err e ↦ record { status = err e; keys = keys; memory = m' }
          | ok keyring ↦ elim (find_cookie_master_key keyring (read_be32 cookie)) [
            | none ↦ record { status = err not_found; keys = keys; memory = m' }
            | some master ↦
                let r = open_cookie psa master clock' cookie keys in
                record { status = r.0; keys = r.1; memory = m' }
          ]
        ]
