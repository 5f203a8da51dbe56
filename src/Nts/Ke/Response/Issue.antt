-- ===== src/Nts/Ke/Response/Issue.antt =====
-- The response of a session whose keys are exported, while the store and the API work.
use esp32p4_nts_time_server.Base.{
  ℕ, zero, suc, ◌+◌, ◌*◌, ◌≤◌, ◌≡◌, refl, ap, sym, ◌∙◌, List, [], ◌∷◌, ◌++◌, true, false, length,
  take, arith, ok, esp_ok, Status, length-append, take_prefix, append_assoc, append-nil, All,
}
use esp32p4_nts_time_server.Base.Bytes.{zeros}
use esp32p4_nts_time_server.Nts.AesSiv.{Psa}
use esp32p4_nts_time_server.Nts.AesSiv.Works as Siv
use esp32p4_nts_time_server.Nts.Keyring.{CookieKey, Keyring, Nvs, Memory, ring}
use esp32p4_nts_time_server.Nts.Keyring.Rotation.{IsKept}
use esp32p4_nts_time_server.Nts.Keyring.Storage as Store
use esp32p4_nts_time_server.Nts.Cookie.{CookieKeys, create}
use esp32p4_nts_time_server.Nts.Cookie.Wire.{Fits}
use esp32p4_nts_time_server.Nts.Cookie.Trip.{Cmac, Stream, wire}
use esp32p4_nts_time_server.Nts.Cookie.Life.{Timely, create-Works}
use esp32p4_nts_time_server.Nts.Ke.{append_record}
use esp32p4_nts_time_server.Nts.Ke.Records.{
  KeRecord, encode, encode_record, length-encode_record, append_record-encode_record,
}
use esp32p4_nts_time_server.Nts.Ke.Response.{ResponseDraws, issue_cookies}

abbrev pub cookie_record : List ℕ → KeRecord
cookie_record c = record { kind = 5; critical = false; body = c }

abbrev pub cookie_records : List (List ℕ) → List KeRecord → List KeRecord
cookie_records [] after = after
cookie_records (c ∷ cs) after = cookie_record c ∷ cookie_records cs after

abbrev pub next_protocol_record : KeRecord
next_protocol_record = record { kind = 1; critical = true; body = 0 ∷ 0 ∷ [] }

abbrev pub aead_record : KeRecord
aead_record = record { kind = 4; critical = false; body = 0 ∷ 15 ∷ [] }

abbrev pub end_record : KeRecord
end_record = record { kind = 0; critical = true; body = [] }

-- A cookie of 128 bytes that seals the keys under some master key and nonce.
abbrev pub Carries : Cmac → Stream → CookieKeys → List ℕ → Type 0
Carries cm ks keys c =
    (length c ≡ 128) × ((master : CookieKey) × (n : List ℕ) × (c ≡ wire cm ks master n keys))

module _ (nvs : Nvs) (cm : Cmac) (ks : Stream) (psa : Psa) (works : Store.Works nvs)
    (w : Siv.Works psa cm ks) (draws : ResponseDraws) (timely : Timely draws.cookies) where
  -- `n` cookies behind what was there.
  abbrev pub Issued : CookieKeys → ℕ → List ℕ → (Status × List ℕ) × Memory nvs → Type 0
  Issued keys n used r =
      (cookies : List (List ℕ)) × (after : Keyring) × (length cookies ≡ n)
      × All (Carries cm ks keys) cookies
      × (r.0 ≡ (esp_ok, used ++ encode (cookie_records cookies [])))
      × (nvs.get_blob r.1.store ≡ ring after)
      × IsKept after

  issue_cookies_step :
      (size : ℕ) (keys : CookieKeys) (n i : ℕ) (used packet tail more : List ℕ) (m m' : Memory nvs)
      → create nvs psa
          (draws.cookies.rotation i)
          (draws.cookies.nonce i)
          (draws.cookies.clock i)
          keys
          (zeros 256)
          256
          m
        ≡ record { status = esp_ok; cookie = packet ++ tail; cookie_len = 128; memory = m' }
      → length packet ≡ 128
      → append_record size 5 false packet used ≡ ok more
      → issue_cookies nvs psa draws size keys (suc n) i used m
        ≡ issue_cookies nvs psa draws size keys n (i + 1) more m'
  unfolding issue_cookies
  issue_cookies_step size keys n i used packet tail more m m' made l e =
      let sent : take 128 (packet ++ tail) ≡ packet = take_prefix 128 packet tail l in
      let q : append_record size 5 false (take 128 (packet ++ tail)) used ≡ ok more = rw sent e in
      ground (arith, made, q)

  pub issue_cookies-Issued :
      (size : ℕ) (keys : CookieKeys) (n i : ℕ) (used : List ℕ) (m : Memory nvs) (r : Keyring)
      → nvs.get_blob m.store ≡ ring r
      → IsKept r
      → Fits keys
      → length used + n * 132 ≤ size
      → Issued keys n used (issue_cookies nvs psa draws size keys n i used m)
  unfolding issue_cookies
  issue_cookies-Issued size keys zero i used m r h k f room =
      ([], r, refl, tt, ap (λ (b : List ℕ). (esp_ok, b)) (sym (append-nil used)), h, k)
  issue_cookies-Issued size keys (suc n) i used m r h k f room =
      let (packet, tail, m', after, made, l, sealed, blob, kept) =
        create-Works nvs cm ks psa works w (draws.cookies.rotation i) (draws.cookies.nonce i) keys
          (zeros 256) 256 (timely.now i) m r h k (timely.nonces i) f (omega arith)
          (timely.small i) in
      let at = timely.clocks i in
      let made' : create nvs psa (draws.cookies.rotation i) (draws.cookies.nonce i)
            (draws.cookies.clock i) keys (zeros 256) 256 m
          ≡ record { status = esp_ok; cookie = packet ++ tail; cookie_len = 128; memory = m' } =
        rw at made in
      let c = cookie_record packet in
      let more = used ++ encode_record c in
      let size_more : length more ≡ length used + 132 =
        omega (arith, length-append used (encode_record c), length-encode_record c, l) in
      let e =
        append_record-encode_record size c used (omega arith, omega (arith, l))
          (omega (arith, l)) in
      let (cookies, end, count, all, same, blob', kept') =
        issue_cookies-Issued size keys n (i + 1) more m' after blob kept f
          (omega (arith, size_more)) in
      let step = issue_cookies_step size keys n i used packet tail more m m' made' l e in
      (
        packet ∷ cookies,
        end,
        ap suc count,
        ((l, (after.active, draws.cookies.nonce i, sealed)), all),
        rw step (
            same
            ∙ ap (λ (b : List ℕ). (esp_ok, b))
                (append_assoc used (encode_record c) (encode (cookie_records cookies [])))),
        rw step blob',
        kept',
      )
