-- ===== src/Nts/Cookie/Trip.antt =====
-- A cookie that the device made is opened by the device, with the same keys.
use esp32p4_nts_time_server.Base.{
  ℕ, ◌+◌, ◌^◌, ◌<◌, ◌≤◌, ◌≡◌, refl, ap, ap₂, ◌∙◌, List, ◌++◌, Option, some, length, take, drop,
  Status, esp_ok, arith, append_assoc, append-nil, take_prefix, drop_prefix, length-append,
}
use esp32p4_nts_time_server.Base.Bytes.{read_be32, be32_bytes, read_be32-bytes, overwrite, zeros}
use esp32p4_nts_time_server.Nts.AesSiv.{Psa, encrypt, decrypt}
use esp32p4_nts_time_server.Nts.AesSiv.Works.{sealed, encrypt-Works, decrypt-Works, sealed-length}
use esp32p4_nts_time_server.Nts.AesSiv.Works as Siv
use esp32p4_nts_time_server.Nts.Keyring.{CookieKey}
use esp32p4_nts_time_server.Nts.Cookie.{
  CookieKeys, payload, unpack_payload, seal_cookie, open_cookie,
}
use esp32p4_nts_time_server.Nts.Cookie.Wire.{Fits, length-payload, unpack_payload-payload}

abbrev pub Cmac : Type 0
Cmac = List ℕ → List ℕ → List ℕ

abbrev pub Stream : Type 0
Stream = List ℕ → List ℕ → ℕ → List ℕ

seal_steps :
    (psa : Psa) (master : CookieKey) (nonce_bytes : List ℕ) (keys : CookieKeys) (cookie : List ℕ)
    (cookie_len : ℕ) (output : List ℕ) (output_len : ℕ)
    → encrypt psa master.key
        (be32_bytes master.key_id)
        (some nonce_bytes)
        (payload master.key_id keys)
        (drop 20 cookie)
        108
      ≡ record { status = esp_ok; output = output; output_len = output_len }
    → seal_cookie psa master nonce_bytes keys cookie cookie_len
      ≡ (esp_ok, be32_bytes master.key_id ++ (nonce_bytes ++ output), 20 + output_len)
unfolding seal_cookie
seal_steps psa master n keys cookie cookie_len output output_len h = ground arith

open_steps :
    (psa : Psa) (master : CookieKey) (clock : Option ℕ) (cookie : List ℕ) (old : CookieKeys)
    (header n sealed_part output : List ℕ)
    → (take 4 cookie ≡ header) × (take 16 (drop 4 cookie) ≡ n) × (drop 20 cookie ≡ sealed_part)
    → decrypt psa master.key header (some n) sealed_part (zeros 92) 92
      ≡ record { status = esp_ok; output = output; output_len = 92 }
    → open_cookie psa master clock cookie old ≡ unpack_payload (read_be32 cookie) clock output old
unfolding open_cookie
open_steps psa master clock cookie old header n sealed_part output parts h = ground (arith, e)
  where
    e :
        decrypt psa master.key
          (take 4 cookie)
          (some (take 16 (drop 4 cookie)))
          (drop 20 cookie)
          (zeros 92)
          92
        ≡ record { status = esp_ok; output = output; output_len = 92 }
    e = rw (parts.0, parts.1, parts.2) h

module _ (cm : Cmac) (ks : Stream) (master : CookieKey) (nonce_bytes : List ℕ)
    (keys : CookieKeys) where
  -- The encrypted part of a cookie.
  abbrev pub body : List ℕ
  body =
      sealed cm ks master.key (be32_bytes master.key_id) (some nonce_bytes)
        (payload master.key_id keys)

  -- The bytes of a cookie.
  abbrev pub wire : List ℕ
  wire = be32_bytes master.key_id ++ (nonce_bytes ++ body)

  module _ (psa : Psa) (w : Siv.Works psa cm ks) (f : Fits keys)
      (n16 : length nonce_bytes ≡ 16) where
    body-length : length body ≡ 108
    body-length =
        sealed-length cm ks psa w master.key (be32_bytes master.key_id) (some nonce_bytes)
          (payload master.key_id keys)
        ∙ ap (λ (k : ℕ). 16 + k) (length-payload master.key_id keys f)

    pub wire-length : length wire ≡ 128
    unfolding be32_bytes
    wire-length = omega (arith, length-append nonce_bytes body, n16, body-length)

    -- The parts of a cookie, as it is opened.
    wire_parts :
        (take 4 wire ≡ be32_bytes master.key_id)
        × (take 16 (drop 4 wire) ≡ nonce_bytes)
        × (drop 20 wire ≡ body)
    unfolding be32_bytes
    wire_parts = (refl, take_prefix 16 nonce_bytes body n16, drop_prefix 16 nonce_bytes body n16)

    pub sealed_at :
        (cookie : List ℕ) (cookie_len : ℕ)
        → seal_cookie psa master nonce_bytes keys cookie cookie_len
          ≡ (esp_ok, wire ++ drop (length body) (drop 20 cookie), 128)
    sealed_at cookie cookie_len =
        let e =
          encrypt-Works cm ks psa w master.key (be32_bytes master.key_id) (some nonce_bytes)
            (payload master.key_id keys) (drop 20 cookie) 108
            (omega (arith, length-payload master.key_id keys f)) in
        let tail = drop (length body) (drop 20 cookie) in
        let l = length-payload master.key_id keys f in
        let joined : be32_bytes master.key_id ++ (nonce_bytes ++ (body ++ tail)) ≡ wire ++ tail =
          simp append_assoc in
        let total : 20 + (16 + length (payload master.key_id keys)) ≡ 128 = omega (arith, l) in
        let framed : List ℕ → ℕ → Status × List ℕ × ℕ = λ x y. (esp_ok, x, y) in
        seal_steps psa master nonce_bytes keys cookie cookie_len (body ++ tail)
          (16 + length (payload master.key_id keys)) e
        ∙ ap₂ framed joined total

    pub opened_at :
        (now : ℕ) (old : CookieKeys)
        → master.key_id < 2 ^ 32
        → keys.issued_ntp_seconds ≤ now
        → now < keys.expires_ntp_seconds
        → open_cookie psa master (some now) wire old
          ≡ (esp_ok, record keys { master_key_id = master.key_id })
    opened_at now old small born alive =
        let l = length-payload master.key_id keys f in
        let d =
          decrypt-Works cm ks psa w master.key (be32_bytes master.key_id) (some nonce_bytes)
            (payload master.key_id keys) (zeros 92) 92 (omega (arith, l)) in
        let packet = payload master.key_id keys in
        let gone : overwrite (zeros 92) packet ≡ packet =
          ap (λ k. packet ++ drop k (zeros 92)) l ∙ append-nil packet in
        let plain : decrypt psa master.key (be32_bytes master.key_id) (some nonce_bytes) body
              (zeros 92) 92
            ≡ record { status = esp_ok; output = packet; output_len = 92 } =
          d ∙ (λ i. record { status = esp_ok; output = gone i; output_len = l i }) in
        let id : read_be32 wire ≡ master.key_id =
          read_be32-bytes master.key_id (nonce_bytes ++ body) small in
        open_steps psa master (some now) wire old (be32_bytes master.key_id) nonce_bytes body
          (payload master.key_id keys) wire_parts plain
        ∙ ap (λ k. unpack_payload k (some now) (payload master.key_id keys) old) id
        ∙ unpack_payload-payload master.key_id now keys old small f born alive
