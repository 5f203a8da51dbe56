-- ===== src/Gnss/Service/Source.antt =====
-- main/gnss_service.c: on what the valid UTC of the service rests.
use esp32p4_nts_time_server.Base.{
  ℕ, ◌+◌, ◌≤◌, ◌<◌, ◌≡◌, inl, inr, true, some, List, [], ◌∷◌, length, length-append, arith, ltb,
  if◌then◌else◌, Option-cases, All, u32,
}
use esp32p4_nts_time_server.Base.Bytes.{byte_at}
use esp32p4_nts_time_server.Gnss.Ubx.{
  UbxOutcome, nothing, invalid_length, invalid_checksum, dispatch, ubx_parser_consume,
}
use esp32p4_nts_time_server.Gnss.Nmea.{before, parse_zda_epoch}
use esp32p4_nts_time_server.Gnss.Messages.{
  Gnss, report, pvt_fix_valid, pvt_epoch, record_pvt, has_bit, count_ack, handle_ubx_ack,
  handle_ubx_nav_pvt, handle_ubx_nav_timels, handle_ubx_tim_tp,
}
use esp32p4_nts_time_server.Gnss.Messages.Identity.{handle_ubx_mon_ver}
use esp32p4_nts_time_server.Gnss.Service.{
  take_zda, count_invalid_message, process_nmea_line, dispatch_message, dispatch_ubx_frame, perform,
  process_nmea_byte, process_received_byte, process_bytes, update_utc_age, update_timing_age,
  gnss_update_staleness, gnss_task_round,
}

-- UTC from UBX is valid only with a fix and a fully resolved time; what is valid has a time of
-- reception; a line that is being read leaves room for its terminating zero in the buffer of 160.
pub record IsSound (g : Gnss) : Type 0 where
  pub fix :
      g.status.utc_valid ≡ true → g.status.utc_from_ubx_pvt ≡ true → g.status.gnss_fix_valid ≡ true
  pub resolved :
      g.status.utc_valid ≡ true
      → g.status.utc_from_ubx_pvt ≡ true
      → g.status.gnss_time_fully_resolved ≡ true
  pub utc_dated : g.status.utc_valid ≡ true → 0 < g.last_utc_rx_us
  pub pulse_dated : g.status.timing_pulse_valid ≡ true → 0 < g.last_tim_tp_rx_us
  pub line_fits : length g.nmea_line ≤ 159

handle_ubx_ack-IsSound :
    (i : ℕ) (payload : List ℕ) (g : Gnss) → IsSound g → IsSound (handle_ubx_ack i payload g)
unfolding handle_ubx_ack count_ack
handle_ubx_ack-IsSound i payload g h = ground (arith, h)

-- A PVT message gives a time only with a fix and a fully resolved time.
pvt_epoch_flags :
    (payload : List ℕ) (epoch : ℕ)
    → pvt_epoch payload ≡ some epoch
    → (pvt_fix_valid payload ≡ true) × (has_bit (byte_at payload 11) 2 ≡ true)
unfolding pvt_epoch
pvt_epoch_flags payload epoch e = ground (arith, e)

handle_ubx_nav_pvt-IsSound :
    (now : ℕ) (payload : List ℕ) (g : Gnss)
    → 0 < now
    → IsSound g
    → IsSound (handle_ubx_nav_pvt now payload g)
unfolding handle_ubx_nav_pvt record_pvt report
handle_ubx_nav_pvt-IsSound now payload g t h = elim (Option-cases (pvt_epoch payload)) [
  | inl e ↦ ground (arith, h, e)
  | inr (epoch, e) ↦ let flags = pvt_epoch_flags payload epoch e in ground (arith, h, e, flags)
]

handle_ubx_nav_timels-IsSound :
    (payload : List ℕ) (g : Gnss) → IsSound g → IsSound (handle_ubx_nav_timels payload g)
unfolding handle_ubx_nav_timels
handle_ubx_nav_timels-IsSound payload g h = ground (arith, h)

handle_ubx_tim_tp-IsSound :
    (now : ℕ) (payload : List ℕ) (g : Gnss)
    → 0 < now
    → IsSound g
    → IsSound (handle_ubx_tim_tp now payload g)
unfolding handle_ubx_tim_tp
handle_ubx_tim_tp-IsSound now payload g t h = ground (arith, h)

handle_ubx_mon_ver-IsSound :
    (payload : List ℕ) (g : Gnss) → IsSound g → IsSound (handle_ubx_mon_ver payload g)
unfolding handle_ubx_mon_ver
handle_ubx_mon_ver-IsSound payload g h = ground (arith, h)

take_zda-IsSound : (now epoch : ℕ) (g : Gnss) → 0 < now → IsSound g → IsSound (take_zda now epoch g)
unfolding take_zda report
take_zda-IsSound now epoch g t h = ground (arith, h)

update_utc_age-IsSound : (now : ℕ) (g : Gnss) → IsSound g → IsSound (update_utc_age now g)
unfolding update_utc_age report
update_utc_age-IsSound now g h = ground (arith, h)

update_timing_age-IsSound : (now : ℕ) (g : Gnss) → IsSound g → IsSound (update_timing_age now g)
unfolding update_timing_age
update_timing_age-IsSound now g h = ground (arith, h)

dispatch_message-IsSound :
    (now c i : ℕ) (payload : List ℕ) (g : Gnss)
    → 0 < now
    → IsSound g
    → IsSound (dispatch_message now c i payload g)
unfolding dispatch_message
dispatch_message-IsSound now c i payload g t h = ground (
  arith,
  h,
  handle_ubx_ack-IsSound i payload g h,
  handle_ubx_nav_pvt-IsSound now payload g t h,
  handle_ubx_nav_timels-IsSound payload g h,
  handle_ubx_tim_tp-IsSound now payload g t h,
  handle_ubx_mon_ver-IsSound payload g h,
)

perform-IsSound :
    (now : ℕ) (outcome : UbxOutcome) (g : Gnss)
    → 0 < now
    → IsSound g
    → IsSound (perform now outcome g)
unfolding perform dispatch_ubx_frame
perform-IsSound now nothing g t h = h
perform-IsSound now invalid_length g t h = ground (arith, h)
perform-IsSound now invalid_checksum g t h = ground (arith, h)
perform-IsSound now (dispatch c i payload) g t h =
    dispatch_message-IsSound now c i payload _ t (ground (arith, h))

process_nmea_line-IsSound :
    (now : ℕ) (line : List ℕ) (g : Gnss)
    → 0 < now
    → IsSound g
    → IsSound (process_nmea_line now line g)
unfolding process_nmea_line count_invalid_message
process_nmea_line-IsSound now line g t h = elim (Option-cases (parse_zda_epoch line)) [
  | inl e ↦ ground (arith, h, e)
  | inr (epoch, e) ↦ ground (arith, h, e, take_zda-IsSound now epoch g t h)
]

process_nmea_byte-IsSound :
    (now byte : ℕ) (g : Gnss) → 0 < now → IsSound g → IsSound (process_nmea_byte now byte g)
unfolding process_nmea_byte count_invalid_message
process_nmea_byte-IsSound now byte g t h = ground (
  arith,
  h,
  process_nmea_line-IsSound now (before 0 g.nmea_line) g t h,
  length-append g.nmea_line (byte ∷ []),
)

process_received_byte-IsSound :
    (now byte : ℕ) (g : Gnss) → 0 < now → IsSound g → IsSound (process_received_byte now byte g)
unfolding process_received_byte
process_received_byte-IsSound now byte g t h =
    let (parser, outcome) = ubx_parser_consume byte g.parser in
    ground (
      arith,
      perform-IsSound now outcome (record g { nmea_line = []; parser = parser }) t
          (ground (arith, h)),
      process_nmea_byte-IsSound now byte g t h,
    )

-- The bytes come with times after the start of the timer.
abbrev pub IsTimed : List (ℕ × ℕ) → Type 0
IsTimed = All (λ (now_and_byte : ℕ × ℕ). 0 < now_and_byte.0)

pub process_bytes-IsSound :
    (bytes : List (ℕ × ℕ)) (g : Gnss) → IsTimed bytes → IsSound g → IsSound (process_bytes bytes g)
unfolding process_bytes
process_bytes-IsSound [] g t h = h
process_bytes-IsSound ((now, byte) ∷ bytes) g t h =
    process_bytes-IsSound bytes (process_received_byte now byte g) t.1
      (process_received_byte-IsSound now byte g t.0 h)

pub gnss_update_staleness-IsSound :
    (now : ℕ) (g : Gnss) → IsSound g → IsSound (gnss_update_staleness now g)
unfolding gnss_update_staleness
gnss_update_staleness-IsSound now g h =
    update_timing_age-IsSound now (update_utc_age now g) (update_utc_age-IsSound now g h)

gnss_task_round-IsSound :
    (bytes : List (ℕ × ℕ)) (now : ℕ) (g : Gnss)
    → IsTimed bytes
    → IsSound g
    → IsSound (gnss_task_round bytes now g)
unfolding gnss_task_round
gnss_task_round-IsSound bytes now g t h = gnss_update_staleness-IsSound now _ read
  where
    counted : IsSound (record g {
      status = record g.status {
        uart_bytes_received = u32 (g.status.uart_bytes_received + length bytes);
      };
    })
    counted = ground (arith, h)

    read : IsSound (
        if ltb 0 (length bytes)
        then process_bytes bytes (record g {
          status = record g.status {
            uart_bytes_received = u32 (g.status.uart_bytes_received + length bytes);
          };
        })
        else g)
    read = ground (arith, h, process_bytes-IsSound bytes _ t counted)

-- `gnss_task` over rounds, each with its bytes and the time behind them.
unfoldable pub task_run : List (List (ℕ × ℕ) × ℕ) → Gnss → Gnss
task_run [] g = g
task_run ((bytes, now) ∷ rounds) g = task_run rounds (gnss_task_round bytes now g)

abbrev pub AreTimed : List (List (ℕ × ℕ) × ℕ) → Type 0
AreTimed = All (λ (round : List (ℕ × ℕ) × ℕ). IsTimed round.0)

-- Whatever bytes the UART delivers, the task keeps the state sound: UTC is valid from UBX only
-- while the receiver has reported a fix and a fully resolved time, UTC and the time pulse are valid
-- only with a time of reception, and no line outgrows its buffer. The timer has started when bytes
-- come.
pub task_run-IsSound :
    (rounds : List (List (ℕ × ℕ) × ℕ)) (g : Gnss)
    → AreTimed rounds
    → IsSound g
    → IsSound (task_run rounds g)
unfolding task_run
task_run-IsSound [] g t h = h
task_run-IsSound ((bytes, now) ∷ rounds) g t h =
    task_run-IsSound rounds (gnss_task_round bytes now g) t.1
      (gnss_task_round-IsSound bytes now g t.0 h)
