-- ===== src/Lib.antt =====
-- The firmware of an NTP and NTS time server on an ESP32-P4: main/ is a C program over ESP-IDF.
-- A GNSS receiver and its pulse per second discipline a clock (gnss_service.c, pps_service.c,
-- clock_discipline.c), ntp_server.c answers NTP requests from it, and Network Time Security hands
-- out cookies over TLS (nts_ke.c) with which nts_ntp_auth.c authenticates NTP packets.
--
-- What is modelled, and where:
--   Base       what the parts share: casts to the widths of C, arrays as lists, bit operations by
--              their binary digits, big-endian fields, and esp_err_t
--   Ntp.Packet main/ntp_packet.c and main/ntp_types.h: `parse` is ntp_packet_parse, `build` is
--              ntp_packet_build
--   Ntp.RateLimit main/ntp_rate_limit.c: `init` and `allow` are ntp_rate_limit_init and
--              ntp_rate_limit_allow, on the table `Clients`, which is s_clients; ntp_server.c asks
--              it before it answers
--   Nts.AesSiv main/nts_aes_siv.c: `encrypt` and `decrypt` are nts_aes_siv_encrypt and
--              nts_aes_siv_decrypt; the static functions have their names
--   Nts.Keyring main/nts_storage.c: the ring of master keys in NVS; `ensure_cookie_keyring` and
--              `maintain_cookie_keyring` are the functions nts_storage_* of these names
--   Nts.Cookie main/nts_cookie.c: `generate_keys`, `create` and `unpack` are the functions
--              nts_cookie_* of these names; they call Nts.Keyring for the master keys and Nts.AesSiv
--              to seal
--   Nts.Auth   main/nts_ntp_auth.c: `verify_request` is nts_ntp_auth_verify_request, with its
--              counters, and `request_present` nts_ntp_auth_request_present; the verification opens
--              the cookie of a request by Nts.Cookie and its authenticator by Nts.AesSiv. In
--              Nts.Auth.Response, `protect_response_impl` is the function of that name
--   Nts.Ke     main/nts_ke.c: `parse_request`, `append_record`, `build_error_response` and, in
--              Nts.Ke.Response, `build_success_response` are the static functions of these names;
--              Nts.Ke.Session.`handle_client` is a connection, on what TLS answers
--   Ntp.Server main/ntp_server.c: Ntp.Server.Request.`handle_request` is the body of the inner loop
--              of ntp_server_task for a datagram, which calls Ntp.Packet, Ntp.RateLimit and
--              Nts.Auth; the functions ntp_status_record_* are `record_*`, and the statistics stand
--              in Ntp.Server.Timing and Ntp.Server.Comparison
--   Clock.Discipline main/clock_discipline.c: `submit_sample`, `get_ntp_timestamp` and
--              `get_reference_timestamp` are the functions clock_discipline_* of these names;
--              `update_reference_state` and `enforce_holdover_policy` are what its task calls in
--              every round; the rounds are `monitor_round` of Clock.Discipline.Monitor
--   Clock.Pps  main/pps_service.c: `wait_for_capture`, `get_monotonic_us` and `get_pps_status` are
--              the functions pps_service_* that they are named for; the clock reads the status
--   Gnss       main/gnss_service.c: the calendar in Gnss.Dates, the UBX frames in Gnss.Ubx, the
--              fields of NMEA lines in Gnss.Nmea, the handlers of UBX messages in Gnss.Messages,
--              and in Gnss.Service what joins them: `process_received_byte`, which gives each byte to
--              one of the two parsers, `gnss_update_staleness`, the commands to the receiver and
--              the rounds of gnss_task; static functions have their names
--   Ntp.Peers  main/ntp_peer_monitor.c: the arithmetic, the rolling window, `update_failure`, the
--              summary over all peers in Ntp.Peers.Summary, and in
--              Ntp.Peers.Response `process_response`, split into `judge`, which decides, and the updates
--   Device.Config main/device_config.c: the checks and the setters, which are device_config_* in the
--              code
--   Nts.Doubles a working crypto API and a working NVS, for the examples in the Tests modules
--
-- Conventions. A buffer that is passed with its length is the list of its bytes, each a number
-- below 256; a pointer into it is a `drop`. Pointers that are tested for NULL are objects here, so
-- those tests are absent. Out-parameters are results. Numbers of 8, 16, 32 and 64 bits wrap by
-- `u8` to `u64`; lengths of buffers are sizes in memory and do not. An int8_t is its bit pattern,
-- an int64_t that can be negative as well,
-- and other times are counts that are never negative. A mutex makes a call one step of the state.
-- Secrets on the stack, which the code wipes before it returns, are in no result.
--
-- Parameters. `Psa` is what nts_aes_siv.c calls of psa/crypto.h and of the heap, for the length of
-- one call, and `Nvs` what nts_storage.c calls of NVS, of FreeRTOS and of acme_storage_init; the
-- records `Works` of Nts.AesSiv.Works and Nts.Keyring.Storage say what their documentation
-- promises while nothing fails. The time is an argument, `none` while the clock has none, and
-- random bytes are arguments. `Double` is the arithmetic of `double` with its conversions, of which
-- nothing is supposed. `Exporter` is the TLS key exporter, and `Surroundings` what the parts of the
-- device and `sendto` answer the server during a request. The constants that main/Kconfig.projbuild
-- can set have the defaults that it gives them.
--
-- Fuel. Each round of the loop of nts_storage_maintain_cookie_keyring moves the end of the active
-- key by 30 days, so `now + 1` rounds are enough (`rotate_total`); each round of the loops over
-- extension fields takes four bytes or more, so the length of the packet is enough;
-- the loop over the records of a key exchange takes four bytes or more as well. The loops of
-- isqrt_u64 shift a bit of 62 down by two in each round, so 32 rounds are enough.
--
-- Not modelled: of main/nts_ke.c the set-up of TLS and the task that accepts connections; of
-- main/ntp_server.c the socket; of main/clock_discipline.c what is published to
-- main/app_state.c; of main/ntp_peer_monitor.c the sockets and the synchronization with the
-- settings; of
-- main/device_config.c the reading and writing of the storage; the logs; and the other files of
-- main/. The ACME and Cloudflare clients and the web console are mostly
-- calls of HTTP, TLS and JSON libraries; managed_components/ is third-party code.
pub mod Base
pub mod Clock
pub mod Ntp
pub mod Nts
pub mod Gnss
pub mod Device
