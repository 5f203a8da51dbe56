-- ===== src/Nts/Auth/Response/Bounds.antt =====
-- The length of a protected response.
use esp32p4_nts_time_server.Base.{
  ℕ, ◌+◌, ◌^◌, ◌<◌, ◌≤◌, ◌≡◌, refl, ap, ◌∙◌, inl, inr, List, [], ◌∷◌, ◌++◌, some, esp_ok, not, ◌||◌,
  length, take, ltb, ◌==◌, arith, ok, length-append, Bool-cases, Result-cases, append_assoc,
  append-nil,
}
use mathlib.Core.Path.{subst}
use esp32p4_nts_time_server.Base.Bytes.{zeros}
use esp32p4_nts_time_server.Nts.AesSiv.{Psa, encrypt}
use esp32p4_nts_time_server.Nts.Keyring.{Nvs, Memory}
use esp32p4_nts_time_server.Nts.Cookie.{Draws}
use esp32p4_nts_time_server.Nts.Auth.{
  AuthContext, append_extension, ef_unique_identifier, ef_authenticator,
}
use esp32p4_nts_time_server.Nts.Auth.Fields.{FieldFits, field_bytes, length-field_bytes, packed}
use esp32p4_nts_time_server.Nts.Auth.Response.{
  append_authenticator, append_cookies, seal_response, cookie_count, protect_response_impl,
  authenticator_body,
}

-- What an appended extension adds, where it is appended: the field, within the capacity.
record Appended (capacity t : ℕ) (body packet longer : List ℕ) : Type 0 where
  pub whole : longer ≡ packet ++ field_bytes (t, body)
  pub fits : FieldFits (t, body)
  pub room : length packet + (4 + length body) ≤ capacity

append_extension-Appended :
    (capacity t : ℕ) (body packet longer : List ℕ)
    → t < 2 ^ 16
    → append_extension capacity t body packet ≡ ok longer
    → Appended capacity t body packet longer
unfolding append_extension
append_extension-Appended capacity t body packet longer small h = record {
  whole = ground arith;
  fits = (small, ground arith, ground arith);
  room = ground arith;
}

-- What the last step of a response has checked.
record Finished (capacity request_length : ℕ) (body packet response : List ℕ) : Type 0 where
  pub appended : Appended capacity ef_authenticator body packet response
  pub short : length response ≤ request_length

append_authenticator-Finished :
    (capacity request_length : ℕ) (body packet response : List ℕ)
    → append_authenticator capacity request_length body packet ≡ ok response
    → Finished capacity request_length body packet response
unfolding append_authenticator
append_authenticator-Finished capacity request_length body packet response h =
    elim (Result-cases (append_extension capacity ef_authenticator body packet)) [
      | inr (e, q) ↦ absurd (ground arith)
      | inl (r, q) ↦
          let same : r ≡ response = ground arith in
          record {
            appended =
                append_extension-Appended capacity ef_authenticator body packet response
                  (omega arith) (q ∙ ap ok same);
            short = ground arith;
          }
    ]

module _ (nvs : Nvs) (psa : Psa) (draws : Draws) where
  -- A response that is given out: the header, the identifier of the request, and an authenticator
  -- of the ciphertext of the cookies under both; not longer than the request.
  pub record Protected (context : AuthContext) (nonce_bytes packet : List ℕ) (capacity : ℕ)
      (m : Memory nvs) (response : List ℕ) : Type 0 where
    pub plaintext : List ℕ
    pub ciphertext : List ℕ
    pub cookies :
        (append_cookies nvs psa draws context.keys
          (cookie_count context.valid_placeholders)
          0
          []
          m).0
        ≡ ok plaintext
    pub sealed_cookies :
        let r =
          encrypt psa context.keys.s2c_key
            (packet ++ field_bytes (ef_unique_identifier, context.unique_id))
            (some nonce_bytes)
            plaintext
            (zeros 1280)
            1280 in
        (r.status ≡ esp_ok) × (ciphertext ≡ take r.output_len r.output)
    pub layout :
        response
        ≡ packet
          ++ packed (
              (ef_unique_identifier, context.unique_id)
              ∷ (ef_authenticator, authenticator_body nonce_bytes ciphertext)
              ∷ [])
    pub fields_fit :
        FieldFits (ef_unique_identifier, context.unique_id)
        × FieldFits (ef_authenticator, authenticator_body nonce_bytes ciphertext)
    pub within : (length response ≤ capacity) × (length response ≤ context.request_length)

  -- What the encryption of the cookies and the last step have checked.
  abbrev Sealed : AuthContext → List ℕ → ℕ → List ℕ → List ℕ → List ℕ → Type 0
  Sealed context n capacity plaintext response packet =
      let r = encrypt psa context.keys.s2c_key packet (some n) plaintext (zeros 1280) 1280 in
      (r.status ≡ esp_ok)
      × Finished capacity context.request_length (authenticator_body n (take r.output_len r.output))
          packet response

  seal_response-Finished :
      (context : AuthContext) (n : List ℕ) (capacity : ℕ) (packet plaintext response : List ℕ)
      → seal_response nvs psa draws context n capacity packet plaintext ≡ ok response
      → Sealed context n capacity plaintext response packet
  unfolding seal_response
  seal_response-Finished context n capacity packet plaintext response h =
      let r = encrypt psa context.keys.s2c_key packet (some n) plaintext (zeros 1280) 1280 in
      elim (Result-cases r.status) [
        | inr (e, q) ↦ absurd (ground arith)
        | inl (_, q) ↦ (
          q,
          append_authenticator-Finished capacity context.request_length
              (authenticator_body n (take r.output_len r.output)) packet response (ground arith),
        )
      ]

  -- A response that `protect_response_impl` gives out has the layout and the bounds of a
  -- protected one; in particular it is not longer than the request or than the buffer.
  pub protect_response_impl-Protected :
      (context : AuthContext) (n packet : List ℕ) (capacity : ℕ) (m : Memory nvs)
      (response : List ℕ)
      → (protect_response_impl nvs psa draws context n packet capacity m).0 ≡ ok response
      → Protected context n packet capacity m response
  unfolding protect_response_impl
  protect_response_impl-Protected context n packet capacity m response h =
      elim (Bool-cases (
        not context.authenticated
        || not (length packet == 48)
        || ltb capacity (length packet)
        || ltb 1280 capacity)) [
          | inl refused ↦ absurd (ground arith)
          | inr taken ↦
              elim (Result-cases
                (append_extension capacity ef_unique_identifier context.unique_id packet)) [
                  | inr (e, q) ↦ absurd (ground arith)
                  | inl (named, q) ↦
                      let a =
                        append_extension-Appended capacity ef_unique_identifier context.unique_id
                          packet named (omega arith) q in
                      elim (Result-cases
                        (append_cookies nvs psa draws context.keys
                          (cookie_count context.valid_placeholders) 0 [] m).0) [
                            | inr (e, k) ↦ absurd (ground arith)
                            | inl (plaintext, k) ↦
                                let s =
                                  seal_response-Finished context n capacity named plaintext response
                                    (ground arith) in
                                let prefix =
                                  packet ++ field_bytes (ef_unique_identifier, context.unique_id) in
                                let (done, finished) =
                                  subst (Sealed context n capacity plaintext response) a.whole s in
                                let r =
                                  encrypt psa context.keys.s2c_key prefix (some n) plaintext
                                    (zeros 1280) 1280 in
                                let body = authenticator_body n (take r.output_len r.output) in
                                let end = finished.appended in
                                let size : length response ≡ length prefix + (4 + length body) =
                                  ap length end.whole
                                  ∙ length-append prefix (field_bytes (ef_authenticator, body))
                                  ∙ ap (λ (k : ℕ). length prefix + k)
                                      (length-field_bytes (ef_authenticator, body)) in
                                record {
                                  plaintext = plaintext;
                                  ciphertext = take r.output_len r.output;
                                  cookies = k;
                                  sealed_cookies = (done, refl);
                                  layout = rw end.whole (simp (append_assoc, append-nil));
                                  fields_fit = (a.fits, end.fits);
                                  within = (omega (arith, size, end.room), finished.short);
                                }
                          ]
                ]
        ]
