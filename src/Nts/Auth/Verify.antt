-- ===== src/Nts/Auth/Verify.antt =====
-- What a request that passes `verify_request_impl` has shown.
use esp32p4_nts_time_server.Base.{
  ℕ, ◌≤◌, ◌≡◌, refl, ◌⊎◌, inl, inr, List, Option, some, length, take, drop, Status, ok, err, EspErr,
  esp_ok, arith, true, Bool-cases, Option-cases, Result-cases, ◌==◌, ltb, ◌||◌, invalid_arg,
  not_found, not_supported,
}
use esp32p4_nts_time_server.Base.Bytes.{zeros}
use esp32p4_nts_time_server.Nts.AesSiv.{Psa, decrypt}
use esp32p4_nts_time_server.Nts.Keyring.{Nvs, Memory}
use esp32p4_nts_time_server.Nts.Cookie.{zero_keys, unpack}
use esp32p4_nts_time_server.Nts.Auth.{
  AuthContext, zero_context, Seen, nothing_seen, walk, split_authenticator, verify_authenticator,
  verify_found, verify_seen, verify_request_impl, count_equal,
}
use esp32p4_nts_time_server.Nts.Auth.Shape.{Carries, IsAuthenticator}
use esp32p4_nts_time_server.Nts.Auth.Shape.Whole.{walk-Carries, split_authenticator-IsAuthenticator}

module _ (nvs : Nvs) (psa : Psa) (random : ℕ → List ℕ) (clock clock' : Option ℕ) where
  abbrev Refused : Status × AuthContext × Memory nvs → Type 0
  Refused r = (e : EspErr) × (r.0 ≡ err e) × (r.1 ≡ zero_context)

  -- The cookie unpacks to the keys of the context, and the authenticator, over the bytes in
  -- front of it, decrypts under the client's key to nothing.
  abbrev pub Proves :
      List ℕ → List ℕ → List ℕ → ℕ → List ℕ × List ℕ → Memory nvs → AuthContext → Type 0
  Proves packet uid cookie auth_offset (n, ciphertext) m context =
      let u = unpack nvs psa random clock clock' cookie zero_keys m in
      let d =
        decrypt psa context.keys.c2s_key (take auth_offset packet) (some n) ciphertext (zeros 1280)
          1280 in
      (u.status ≡ esp_ok)
      × (context.keys ≡ u.keys)
      × (d.status ≡ esp_ok)
      × (d.output_len ≡ 0)
      × (context.authenticated ≡ true)
      × (context.request_length ≡ length packet)
      × (context.unique_id ≡ uid)

  found_cases :
      (packet : List ℕ) (seen : Seen) (uid cookie : List ℕ) (auth_offset : ℕ) (body : List ℕ)
      (m : Memory nvs)
      → let r =
          verify_found nvs psa random clock clock' packet seen uid cookie auth_offset body m in
        Refused r
        ⊎ ((parts : List ℕ × List ℕ) × (r.0 ≡ esp_ok)
            × (split_authenticator body ≡ ok parts)
            × Proves packet uid cookie auth_offset parts m r.1)
  unfolding verify_found verify_authenticator
  found_cases packet seen uid cookie auth_offset body m =
      elim (Result-cases (split_authenticator body)) [
        | inr (e, h) ↦ inl (e, ground arith, ground arith)
        | inl (parts, h) ↦
            let u = unpack nvs psa random clock clock' cookie zero_keys m in
            elim (Result-cases u.status) [
              | inr (e, k) ↦ inl (e, ground arith, ground arith)
              | inl (_, k) ↦
                  let d =
                    decrypt psa u.keys.c2s_key (take auth_offset packet) (some parts.0) parts.1
                      (zeros 1280) 1280 in
                  elim (Result-cases d.status) [
                    | inr (e, q) ↦ inl (e, ground arith, ground arith)
                    | inl (_, q) ↦ elim (Bool-cases (d.output_len == 0)) [
                      | inr extra ↦ inl (not_supported, ground arith, ground arith)
                      | inl empty ↦
                          let e : verify_found nvs psa random clock clock' packet seen uid cookie
                                auth_offset body m
                              ≡ (
                                esp_ok,
                                record {
                                  unique_id = uid;
                                  valid_placeholders =
                                      count_equal (length cookie) seen.placeholder_lengths;
                                  request_length = length packet;
                                  keys = u.keys;
                                  authenticated = true;
                                },
                                u.memory,
                              ) =
                            ground arith in
                          let none_left : d.output_len ≡ 0 = ground arith in
                          rw e (inr (parts, refl, h, (k, refl, q, none_left, refl, refl, refl)))
                    ]
                  ]
            ]
      ]

  seen_cases :
      (packet : List ℕ) (seen : Seen) (m : Memory nvs)
      → let r = verify_seen nvs psa random clock clock' packet seen m in
        Refused r
        ⊎ ((uid : List ℕ) × (cookie : List ℕ) × (auth_offset : ℕ) × (body : List ℕ) × (seen.uid
              ≡ some uid)
            × (seen.cookie ≡ some cookie)
            × (seen.auth ≡ some (auth_offset, body))
            × (r
                ≡ verify_found nvs psa random clock clock' packet seen uid cookie auth_offset body
                    m))
  unfolding verify_seen
  seen_cases packet seen m = elim (Option-cases seen.uid) [
    | inl h ↦ inl (not_found, ground arith, ground arith)
    | inr (uid, h) ↦ elim (Option-cases seen.cookie) [
      | inl k ↦ inl (not_found, ground arith, ground arith)
      | inr (cookie, k) ↦ elim (Option-cases seen.auth) [
        | inl q ↦ inl (not_found, ground arith, ground arith)
        | inr (a, q) ↦ inr (uid, cookie, a.0, a.1, h, k, q, ground arith)
      ]
    ]
  ]

  -- Either a request is refused with a code, and the context is as it was, where the length is
  -- not that of a request, or zero; or it has 48 to 1280 bytes, of which those behind
  -- the header are extension fields one after the other. In front of the first authenticator
  -- stand one unique identifier, of 32 to 256 bytes, and one cookie, of 1 to 256; the
  -- authenticator has a nonce of 16 bytes and a ciphertext of 16 or more, which fit in it. The
  -- cookie unpacks to the keys of the context, which has the identifier, and the ciphertext
  -- decrypts, to nothing, under the client's key with the packet up to the authenticator as
  -- associated data.
  pub verify_request_impl_cases :
      (packet : List ℕ) (context : AuthContext) (m : Memory nvs)
      → let r = verify_request_impl nvs psa random clock clock' packet context m in
        ((e : EspErr) × (r.0 ≡ err e) × ((r.1 ≡ context) ⊎ (r.1 ≡ zero_context)))
        ⊎ ((uid : List ℕ) × (cookie : List ℕ) × (auth_offset : ℕ) × (body : List ℕ) × (parts : List
                ℕ
              × List ℕ)
            × (r.0 ≡ esp_ok)
            × (48 ≤ length packet)
            × (length packet ≤ 1280)
            × Carries packet uid cookie auth_offset body
            × IsAuthenticator body parts.0 parts.1
            × Proves packet uid cookie auth_offset parts m r.1)
  unfolding verify_request_impl
  verify_request_impl_cases packet context m =
      elim (Bool-cases (ltb (length packet) 48 || ltb 1280 (length packet))) [
        | inl wrong ↦ inl (invalid_arg, ground arith, inl (ground arith))
        | inr right ↦ elim (Result-cases (walk (length packet) (drop 48 packet) 48 nothing_seen)) [
          | inr (e, h) ↦ inl (e, ground arith, inr (ground arith))
          | inl (seen, h) ↦
              let q : verify_request_impl nvs psa random clock clock' packet context m
                  ≡ verify_seen nvs psa random clock clock' packet seen m =
                ground arith in
              elim (seen_cases packet seen m) [
                | inl (e, a, b) ↦ rw q (inl (e, a, inr b))
                | inr (uid, cookie, off, body, su, sc, sa, f) ↦
                    elim (found_cases packet seen uid cookie off body m) [
                      | inl (e, a, b) ↦ rw (q, f) (inl (e, a, inr b))
                      | inr (parts, a, b, c) ↦
                          rw (q, f)
                            (inr (
                              uid,
                              cookie,
                              off,
                              body,
                              parts,
                              a,
                              ground arith,
                              ground arith,
                              walk-Carries packet uid cookie off body seen h su sc sa,
                              split_authenticator-IsAuthenticator body parts b,
                              c,
                            ))
                    ]
              ]
        ]
      ]
