-- ===== src/Nts/Cookie/Unpack.antt =====
-- What `nts_cookie_unpack` guarantees of a cookie that anyone may have sent.
use esp32p4_nts_time_server.Base.{
  ℕ, ◌<◌, ◌≤◌, ◌≡◌, ◌≢◌, refl, ◌∙◌, ◌⊎◌, inl, inr, List, Option, some, length, take, drop, ok, err,
  EspErr, esp_ok, arith, Bool-cases, leb, ltb, ◌||◌, Option-cases, Result-cases, ◌==◌, invalid_size,
  not_found, invalid_state, invalid_response, false,
}
use esp32p4_nts_time_server.Base.Bytes.{read_be16, read_be32, zeros}
use esp32p4_nts_time_server.Nts.AesSiv.{Psa, SivResult, decrypt}
use esp32p4_nts_time_server.Nts.Keyring.{CookieKey, Keyring, Nvs, Memory}
use esp32p4_nts_time_server.Nts.Cookie.{
  CookieKeys, find_in, find_cookie_master_key, wrong_header, unpack_payload, read_be64, open_cookie,
  current_keyring, unpack,
}

-- A key of the ring that is in use and has the id.
abbrev pub Held : Keyring → ℕ → CookieKey → Type 0
Held r id slot =
    ((slot ≡ r.previous) ⊎ (slot ≡ r.active) ⊎ (slot ≡ r.next))
    × (slot.valid ≢ 0)
    × (slot.key_id ≡ id)

find_cookie_master_key-Held :
    (r : Keyring) (id : ℕ) (slot : CookieKey)
    → find_cookie_master_key r id ≡ some slot
    → Held r id slot
unfolding find_cookie_master_key find_in
find_cookie_master_key-Held r id slot e = ground arith

-- Keys that were read for an id at a time of their life, from a plaintext that begins with the
-- magic number, version 1, a zero and the same id.
pub record Alive (keys : CookieKeys) (id : ℕ) (clock : Option ℕ) (plaintext : List ℕ) : Type 0 where
  pub now : ℕ
  pub read : clock ≡ some now
  pub magic : read_be32 plaintext ≡ 0x4E54_5343
  pub version : read_be16 (drop 4 plaintext) ≡ 1
  pub reserved : read_be16 (drop 6 plaintext) ≡ 0
  pub inner_id : read_be32 (drop 8 plaintext) ≡ id
  pub c2s : keys.c2s_key ≡ take 32 (drop 28 plaintext)
  pub s2c : keys.s2c_key ≡ take 32 (drop 60 plaintext)
  pub given_id : keys.master_key_id ≡ id
  pub issued : keys.issued_ntp_seconds ≡ read_be64 (drop 12 plaintext)
  pub expires : keys.expires_ntp_seconds ≡ read_be64 (drop 20 plaintext)
  pub begun : keys.issued_ntp_seconds ≤ now
  pub ends : now < keys.expires_ntp_seconds

-- The decryption of a cookie: its first four bytes are the associated data, the next 16 the nonce.
abbrev pub decrypted : Psa → CookieKey → List ℕ → SivResult
decrypted psa master cookie =
    decrypt psa master.key (take 4 cookie) (some (take 16 (drop 4 cookie))) (drop 20 cookie)
      (zeros 92) 92

-- The decryption succeeds with 92 bytes, and the keys are alive and from those bytes.
abbrev pub Opens : Psa → CookieKey → List ℕ → CookieKeys → Option ℕ → Type 0
Opens psa master cookie keys clock =
    let d = decrypted psa master cookie in
    (d.status ≡ esp_ok) × (d.output_len ≡ 92) × Alive keys (read_be32 cookie) clock d.output

right_header :
    (id : ℕ) (plaintext : List ℕ)
    → wrong_header id plaintext ≡ false
    → (read_be32 plaintext ≡ 0x4E54_5343)
      × (read_be16 (drop 4 plaintext) ≡ 1)
      × (read_be16 (drop 6 plaintext) ≡ 0)
      × (read_be32 (drop 8 plaintext) ≡ id)
unfolding wrong_header
right_header id plaintext h =
    (ground (arith, h), ground (arith, h), ground (arith, h), ground (arith, h))

unpack_payload_cases :
    (id : ℕ) (clock : Option ℕ) (plaintext : List ℕ) (old : CookieKeys)
    → let u = unpack_payload id clock plaintext old in
      ((u.0 ≡ esp_ok) × Alive u.1 id clock plaintext) ⊎ ((e : EspErr) × (u ≡ (err e, old)))
unfolding unpack_payload
unpack_payload_cases id clock plaintext old = elim (Bool-cases (wrong_header id plaintext)) [
  | inl wrong ↦ inr (invalid_response, ground arith)
  | inr right ↦ elim (Option-cases clock) [
    | inl unknown ↦ inr (invalid_state, ground arith)
    | inr (now, e) ↦
        elim (Bool-cases
          (leb (read_be64 (drop 20 plaintext)) now || ltb now (read_be64 (drop 12 plaintext)))) [
            | inl dead ↦ inr (invalid_state, ground arith)
            | inr alive ↦
                let u : unpack_payload id clock plaintext old ≡ (
                  esp_ok,
                  record {
                    c2s_key = take 32 (drop 28 plaintext);
                    s2c_key = take 32 (drop 60 plaintext);
                    master_key_id = id;
                    issued_ntp_seconds = read_be64 (drop 12 plaintext);
                    expires_ntp_seconds = read_be64 (drop 20 plaintext);
                  },
                ) =
                  ground arith in
                let (magic, version, reserved, inner_id) = right_header id plaintext right in
                rw u (
                  inl (
                    refl,
                    record {
                      now = now;
                      read = e;
                      magic = magic;
                      version = version;
                      reserved = reserved;
                      inner_id = inner_id;
                      c2s = refl;
                      s2c = refl;
                      given_id = refl;
                      issued = refl;
                      expires = refl;
                      begun = ground arith;
                      ends = ground arith;
                    },
                  ))
          ]
  ]
]

open_cookie_cases :
    (psa : Psa) (master : CookieKey) (clock : Option ℕ) (cookie : List ℕ) (old : CookieKeys)
    → let u = open_cookie psa master clock cookie old in
      ((u.0 ≡ esp_ok) × Opens psa master cookie u.1 clock) ⊎ ((e : EspErr) × (u ≡ (err e, old)))
unfolding open_cookie
open_cookie_cases psa master clock cookie old =
    let d = decrypted psa master cookie in
    elim (Result-cases d.status) [
      | inr (e, h) ↦ inr (e, ground arith)
      | inl (_, h) ↦ elim (Bool-cases (d.output_len == 92)) [
        | inr short ↦ inr (invalid_size, ground arith)
        | inl whole ↦
            let u : open_cookie psa master clock cookie old
                ≡ unpack_payload (read_be32 cookie) clock d.output old =
              ground arith in
            elim (unpack_payload_cases (read_be32 cookie) clock d.output old) [
              | inl (a, b) ↦ rw u (inl (a, (h, ground arith, b)))
              | inr (e, q) ↦ inr (e, u ∙ q)
            ]
      ]
    ]

-- Either a cookie is refused with a code, and the keys of the caller are as they were; or it has
-- 128 bytes, its first four name a key of the ring that is in use, and its body decrypts under
-- that key, with those four bytes as associated data and the next 16 as the nonce, to 92 bytes:
-- the magic number, version 1, a zero, the same id, the times of issue and of expiry, and the
-- two keys. The keys, the times and the id are given out, and the clock stands in that life.
pub unpack_cases :
    (nvs : Nvs) (psa : Psa) (random : ℕ → List ℕ) (clock clock' : Option ℕ) (cookie : List ℕ)
    (old : CookieKeys) (m : Memory nvs)
    → let u = unpack nvs psa random clock clock' cookie old m in
      ((e : EspErr) × (u.status ≡ err e) × (u.keys ≡ old))
      ⊎ ((r : Keyring) × (master : CookieKey) × (u.status ≡ esp_ok)
          × (length cookie ≡ 128)
          × ((current_keyring nvs random clock m).0 ≡ ok r)
          × Held r (read_be32 cookie) master
          × Opens psa master cookie u.keys clock')
unfolding unpack
unpack_cases nvs psa random clock clock' cookie old m = elim (Bool-cases (length cookie == 128)) [
  | inr other ↦ inl (invalid_size, ground arith, ground arith)
  | inl whole ↦ elim (Result-cases (current_keyring nvs random clock m).0) [
    | inr (e, h) ↦ inl (e, ground arith, ground arith)
    | inl (r, h) ↦ elim (Option-cases (find_cookie_master_key r (read_be32 cookie))) [
      | inl foreign ↦ inl (not_found, ground arith, ground arith)
      | inr (master, found) ↦
          let held = find_cookie_master_key-Held r (read_be32 cookie) master found in
          let u : unpack nvs psa random clock clock' cookie old m ≡ record {
            status = (open_cookie psa master clock' cookie old).0;
            keys = (open_cookie psa master clock' cookie old).1;
            memory = (current_keyring nvs random clock m).1;
          } =
            ground arith in
          elim (open_cookie_cases psa master clock' cookie old) [
            | inr (e, q) ↦ rw (u, q) (inl (e, refl, refl))
            | inl (a, opens) ↦ rw u (inr (r, master, a, ground arith, h, held, opens))
          ]
    ]
  ]
]
