-- ===== src/Nts/Auth/Response/Trip.antt =====
-- A response to a request whose keys fit: it is built, and the client opens it.
use esp32p4_nts_time_server.Base.{
  ℕ, zero, suc, ◌+◌, ◌*◌, ◌-◌, ◌%◌, ◌≤◌, ◌≡◌, refl, ap, sym, ◌∙◌, List, [], ◌∷◌, ◌++◌, true, some,
  length, take, arith, Result, ok, esp_ok, length-append, take_prefix, append_assoc, append-nil,
  All, length-replicate,
}
use esp32p4_nts_time_server.Base.Bytes.{zeros, be16_bytes}
use esp32p4_nts_time_server.Nts.AesSiv.{Psa, encrypt}
use esp32p4_nts_time_server.Nts.AesSiv.Works as Siv
use esp32p4_nts_time_server.Nts.AesSiv.Works.{sealed, encrypt-Works, decrypt-Works, sealed-length}
use esp32p4_nts_time_server.Nts.Keyring.{Keyring, Nvs, Memory, ring}
use esp32p4_nts_time_server.Nts.Keyring.Rotation.{IsKept}
use esp32p4_nts_time_server.Nts.Keyring.Storage as Store
use esp32p4_nts_time_server.Nts.Cookie.{Draws, CookieKeys, create}
use esp32p4_nts_time_server.Nts.Cookie.Wire.{Fits}
use esp32p4_nts_time_server.Nts.Cookie.Trip.{Cmac, Stream}
use esp32p4_nts_time_server.Nts.Cookie.Life.{Timely, create-Works}
use esp32p4_nts_time_server.Nts.Auth.{
  AuthContext, append_extension, round_up_4, ef_unique_identifier, ef_cookie, ef_authenticator,
}
use esp32p4_nts_time_server.Nts.Auth.Fields.{
  Field, FieldFits, field_bytes, packed, length-field_bytes, append_extension-packed,
}
use esp32p4_nts_time_server.Nts.Auth.Response.{
  append_authenticator, append_cookies, seal_response, cookie_count, protect_response_impl,
  authenticator_body,
}

-- The fields of the cookies.
abbrev pub cookie_fields : List (List ℕ) → List Field
cookie_fields [] = []
cookie_fields (c ∷ cs) = (ef_cookie, c) ∷ cookie_fields cs

module _ (nvs : Nvs) (cm : Cmac) (ks : Stream) (psa : Psa) (works : Store.Works nvs)
    (w : Siv.Works psa cm ks) (draws : Draws) (timely : Timely draws) where
  -- `n` cookies of 128 bytes each behind what was there.
  abbrev pub Filled : ℕ → List ℕ → Result (List ℕ) × Memory nvs → Type 0
  Filled n plaintext r =
      (cookies : List (List ℕ)) × (after : Keyring) × (length cookies ≡ n)
      × All (λ (c : List ℕ). length c ≡ 128) cookies
      × (r.0 ≡ ok (plaintext ++ packed (cookie_fields cookies)))
      × (nvs.get_blob r.1.store ≡ ring after)
      × IsKept after

  append_cookies_step :
      (keys : CookieKeys) (n i : ℕ) (plaintext packet tail longer : List ℕ) (m m' : Memory nvs)
      → create nvs psa (draws.rotation i) (draws.nonce i) (draws.clock i) keys (zeros 256) 256 m
        ≡ record { status = esp_ok; cookie = packet ++ tail; cookie_len = 128; memory = m' }
      → length packet ≡ 128
      → append_extension 1280 ef_cookie packet plaintext ≡ ok longer
      → append_cookies nvs psa draws keys (suc n) i plaintext m
        ≡ append_cookies nvs psa draws keys n (i + 1) longer m'
  unfolding append_cookies
  append_cookies_step keys n i plaintext packet tail longer m m' made l e =
      let sent : take 128 (packet ++ tail) ≡ packet = take_prefix 128 packet tail l in
      let q : append_extension 1280 ef_cookie (take 128 (packet ++ tail)) plaintext ≡ ok longer =
        rw sent e in
      ground (arith, q)

  pub append_cookies-Filled :
      (keys : CookieKeys) (n i : ℕ) (plaintext : List ℕ) (m : Memory nvs) (r : Keyring)
      → nvs.get_blob m.store ≡ ring r
      → IsKept r
      → Fits keys
      → length plaintext + n * 132 ≤ 1280
      → Filled n plaintext (append_cookies nvs psa draws keys n i plaintext m)
  unfolding append_cookies
  append_cookies-Filled keys zero i plaintext m r h k f room =
      ([], r, refl, tt, ap ok (sym (append-nil plaintext)), h, k)
  append_cookies-Filled keys (suc n) i plaintext m r h k f room =
      let (packet, tail, m', after, made, l, _, blob, kept) =
        create-Works nvs cm ks psa works w (draws.rotation i) (draws.nonce i) keys (zeros 256) 256
          (timely.now i) m r h k (timely.nonces i) f (omega arith) (timely.small i) in
      let at = timely.clocks i in
      let made' : create nvs psa (draws.rotation i) (draws.nonce i) (draws.clock i) keys (zeros 256)
            256 m
          ≡ record { status = esp_ok; cookie = packet ++ tail; cookie_len = 128; memory = m' } =
        rw at made in
      let e =
        append_extension-packed 1280 (ef_cookie, packet) plaintext
          (omega arith, omega (arith, l), omega (arith, l)) (omega (arith, l)) in
      let size = length-append plaintext (field_bytes (ef_cookie, packet)) in
      let (cookies, end, count, sizes, all, blob', kept') =
        append_cookies-Filled keys n (i + 1) (plaintext ++ field_bytes (ef_cookie, packet)) m' after
          blob kept f (omega (arith, size, length-field_bytes (ef_cookie, packet), l)) in
      let step =
        append_cookies_step keys n i plaintext packet tail
          (plaintext ++ field_bytes (ef_cookie, packet)) m m' made' l e in
      (
        packet ∷ cookies,
        end,
        ap suc count,
        (l, sizes),
        rw step (
            all
            ∙ ap ok (
                append_assoc plaintext (field_bytes (ef_cookie, packet))
                  (packed (cookie_fields cookies)))),
        rw step blob',
        kept',
      )

pub cookie_count_bound : (v : ℕ) → cookie_count v ≤ 8
unfolding cookie_count
cookie_count_bound v = ground arith

pub length-packed :
    (cookies : List (List ℕ))
    → All (λ (c : List ℕ). length c ≡ 128) cookies
    → length (packed (cookie_fields cookies)) ≡ length cookies * 132
length-packed [] sizes = refl
length-packed (c ∷ cs) sizes = omega (
  arith,
  length-append (field_bytes (ef_cookie, c)) (packed (cookie_fields cs)),
  length-field_bytes (ef_cookie, c),
  length-packed cs sizes.1,
  sizes.0,
)

pub length-authenticator_body :
    (n ciphertext : List ℕ)
    → length ciphertext % 4 ≡ 0
    → length (authenticator_body n ciphertext) ≡ 4 + length n + length ciphertext
unfolding authenticator_body be16_bytes
length-authenticator_body n ciphertext whole =
    let pad : ℕ = round_up_4 (length ciphertext) - length ciphertext in
    let none : pad ≡ 0 = omega arith in
    omega (
      arith,
      length-append n (ciphertext ++ zeros pad),
      length-append ciphertext (zeros pad),
      length-replicate pad (let z : ℕ = 0 in z),
      none,
    )

pub append_authenticator_step :
    (request_length : ℕ) (body packet : List ℕ)
    → length body ≤ 1280
    → FieldFits (ef_authenticator, body)
    → length packet + (4 + length body) ≤ 1280
    → length packet + (4 + length body) ≤ request_length
    → append_authenticator 1280 request_length body packet
      ≡ ok (packet ++ field_bytes (ef_authenticator, body))
unfolding append_authenticator
append_authenticator_step request_length body packet small fits room short =
    let e = append_extension-packed 1280 (ef_authenticator, body) packet fits room in
    let size = length-append packet (field_bytes (ef_authenticator, body)) in
    ground (arith, e, size, length-field_bytes (ef_authenticator, body))

pub seal_response_step :
    (nvs : Nvs) (psa : Psa) (draws : Draws) (context : AuthContext)
    (n packet plaintext output sent : List ℕ) (output_len : ℕ)
    → encrypt psa context.keys.s2c_key packet (some n) plaintext (zeros 1280) 1280
      ≡ record { status = esp_ok; output = output; output_len = output_len }
    → take output_len output ≡ sent
    → seal_response nvs psa draws context n 1280 packet plaintext
      ≡ append_authenticator 1280 context.request_length (authenticator_body n sent) packet
unfolding seal_response
seal_response_step nvs psa draws context n packet plaintext output sent output_len h e =
    ground (arith, h, e)

pub protect_step :
    (nvs : Nvs) (psa : Psa) (draws : Draws) (context : AuthContext)
    (n packet named plaintext : List ℕ) (m m' : Memory nvs)
    → context.authenticated ≡ true
    → length packet ≡ 48
    → append_extension 1280 ef_unique_identifier context.unique_id packet ≡ ok named
    → append_cookies nvs psa draws context.keys (cookie_count context.valid_placeholders) 0 [] m
      ≡ (ok plaintext, m')
    → (protect_response_impl nvs psa draws context n packet 1280 m).0
      ≡ seal_response nvs psa draws context n 1280 named plaintext
unfolding protect_response_impl
protect_step nvs psa draws context n packet named plaintext m m' a l e c =
    ground (arith, a, l, e, c)
