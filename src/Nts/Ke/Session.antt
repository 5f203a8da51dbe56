-- ===== src/Nts/Ke/Session.antt =====
-- main/nts_ke.c: a connection, from the TLS handshake to the counters. What mbedTLS answers to its
-- calls is given as lists of answers, one for each call.
use Prim.Native.Nat.{zero, suc}
use esp32p4_nts_time_server.Base.{
  ℕ, ◌+◌, ◌-◌, ◌^◌, ◌<◌, ◌≡◌, arith, List, [], ◌∷◌, ◌++◌, Bool, true, false, not, ◌&&◌, ◌||◌,
  Option, none, some, length, take, drop, ltb, leb, ◌==◌, if◌then◌else◌, u32, bit_and, Result, ok,
  err, Status, esp_ok, fail, invalid_size, invalid_response,
}
use esp32p4_nts_time_server.Base.Bytes.{byte_at, read_be16}
use esp32p4_nts_time_server.Nts.AesSiv.{Psa}
use esp32p4_nts_time_server.Nts.Keyring.{Nvs, Memory}
use esp32p4_nts_time_server.Nts.Ke.{parse_request, build_error_response}
use esp32p4_nts_time_server.Nts.Ke.Response.{Exporter, ResponseDraws, build_success_response}

-- `nts_ke_stats_t`, as far as a connection counts.
pub record KeStats : Type 0 where
  pub tls_handshake_failures : ℕ
  pub alpn_rejections : ℕ
  pub exchanges_completed : ℕ
  pub exchange_failures : ℕ

-- What `mbedtls_ssl_write` answers: the bytes it took, that it has to be called again, or an error.
pub data WriteAnswer : Type 0 where
  took : ℕ → WriteAnswer
  again failed : WriteAnswer

-- `tls_write_all`, with what is left to send; `none` while it is still to be called again.
unfoldable pub tls_write_all : List WriteAnswer → ℕ → Option Status
tls_write_all answers zero = some esp_ok
tls_write_all [] (suc left) = none
tls_write_all (took n ∷ answers) (suc left) =
    if n == 0 then some (err fail) else tls_write_all answers (suc left - n)
tls_write_all (again ∷ answers) (suc left) = tls_write_all answers (suc left)
tls_write_all (failed ∷ answers) (suc left) = some (err fail)

-- What `mbedtls_ssl_read` answers: bytes, that it has to be called again, that the peer has closed,
-- or an error.
pub data ReadAnswer : Type 0 where
  got : List ℕ → ReadAnswer
  read_again peer_closed read_failed : ReadAnswer

-- The inner loop of `tls_read_request`, on the bytes from the offset on: the result where the end
-- of the message has been read. A round takes four bytes or more, so as many rounds as bytes are
-- enough.
unfoldable pub message_end : ℕ → List ℕ → Option Status
message_end zero rest = none
message_end (suc fuel) rest =
    let after = drop 4 rest in
    let body_len = read_be16 (drop 2 rest) in
    let others = drop body_len after in
    let further = message_end fuel others in
    if ltb (length rest) 4 || ltb (length after) body_len
    then none
    else if bit_and (read_be16 rest) 0x7FFF == 0
    then some (if length others == 0 then esp_ok else err invalid_response)
    else further

-- `tls_read_request`, with the bytes that have been read; `none` while it is still to be called
-- again. A call reads no more than there is room for.
unfoldable pub tls_read_request : List ReadAnswer → List ℕ → Option (Result (List ℕ))
tls_read_request [] request = if leb 2_048 (length request) then some (err invalid_size) else none
tls_read_request (answer ∷ answers) request =
    if leb 2_048 (length request) then some (err invalid_size) else elim answer [
      | got bytes ↦
          let longer = request ++ take (2_048 - length request) bytes in
          let further = tls_read_request answers longer in
          elim (message_end (length longer + 1) longer) [
            | none ↦ further
            | some (ok _) ↦ some (ok longer)
            | some (err code) ↦ some (err code)
          ]
      | read_again ↦ tls_read_request answers request
      | peer_closed ↦ some (err invalid_response)
      | read_failed ↦ some (err fail)
    ]

-- What a connection meets.
pub record Connection : Type 0 where
  pub set_up : Bool
  pub handshake : Bool
  pub alpn : Option (List ℕ)
  pub reads : List ReadAnswer
  pub writes : List WriteAnswer
  pub exporter : Exporter

-- `ntske/1`
abbrev pub is_ntske : Option (List ℕ) → Bool
is_ntske none = false
is_ntske (some name) =
    (length name == 7)
    && (byte_at name 0 == 110)
    && (byte_at name 1 == 116)
    && (byte_at name 2 == 115)
    && (byte_at name 3 == 107)
    && (byte_at name 4 == 101)
    && (byte_at name 5 == 47)
    && (byte_at name 6 == 49)

module _ (nvs : Nvs) (psa : Psa) (draws : ResponseDraws) where
  -- The response to what was read, and the memory of the keys behind it.
  unfoldable pub answer_request : Exporter → Result (List ℕ) → Memory nvs → List ℕ × Memory nvs
  answer_request exporter request m = elim request [
    | err code ↦ ((build_error_response 1 4_096).1, m)
    | ok bytes ↦
        let (status, state) = parse_request bytes in
        elim status [
          | err code ↦ (
            (build_error_response (if leb state.protocol_error 2 then state.protocol_error else 1)
                4_096).1,
            m,
          )
          | ok _ ↦
              let ((built, response), next) =
                build_success_response nvs psa draws exporter 4_096 m in
              elim built [
                | ok _ ↦ (response, next)
                | err code ↦ ((build_error_response 2 4_096).1, next)
              ]
        ]
  ]

  -- `handle_client`; `none` while TLS is still to be called again.
  unfoldable pub handle_client : Connection → KeStats → Memory nvs → Option (KeStats × Memory nvs)
  handle_client c s m =
      if not c.set_up
      then some (s, m)
      else if not c.handshake
      then some (record s { tls_handshake_failures = u32 (s.tls_handshake_failures + 1) }, m)
      else if not (is_ntske c.alpn)
      then some (record s { alpn_rejections = u32 (s.alpn_rejections + 1) }, m)
      else elim (tls_read_request c.reads []) [
        | none ↦ none
        | some request ↦
            let (response, next) = answer_request c.exporter request m in
            let failure = record s { exchange_failures = u32 (s.exchange_failures + 1) } in
            if length response == 0
            then some (failure, next)
            else elim (tls_write_all c.writes (length response)) [
              | none ↦ none
              | some (ok _) ↦
                  some (record s { exchanges_completed = u32 (s.exchanges_completed + 1) }, next)
              | some (err _) ↦ some (failure, next)
            ]
      ]

abbrev tally : KeStats → ℕ
tally s = s.tls_handshake_failures + s.alpn_rejections + s.exchanges_completed + s.exchange_failures

module _ (nvs : Nvs) (psa : Psa) (draws : ResponseDraws) where
  -- A connection that has been set up and that has come to its end is counted once, as one of the
  -- four outcomes, while no counter is at its last value.
  pub handle_client_counts :
      (c : Connection) (s : KeStats) (m : Memory nvs) (t : KeStats) (n : Memory nvs)
      → c.set_up ≡ true
      → tally s < 2 ^ 32 - 1
      → handle_client nvs psa draws c s m ≡ some (t, n)
      → tally t ≡ tally s + 1
  unfolding handle_client
  handle_client_counts c s m t n ready room e = ground (arith, ready, room, e)
