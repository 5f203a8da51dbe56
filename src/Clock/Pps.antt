-- ===== src/Clock/Pps.antt =====
-- main/pps_service.c: the captures of PPS edges and the intervals between them. The timer runs at
-- 1 MHz; the queue of captures and the driver's answers are arguments.
pub mod Intervals
mod Tests
use esp32p4_nts_time_server.Base.{
  ℕ, ◌+◌, ◌-◌, ◌*◌, ◌/◌, ◌^◌, Bool, true, false, not, ◌&&◌, ◌||◌, Option, none, some, List, [], ◌∷◌,
  u32, u64, ltb, leb, ◌==◌, if◌then◌else◌, EspErr, Status, ok, err, esp_ok, no_mem, invalid_state,
  ◌>>◌,
}
use esp32p4_nts_time_server.Base.Signed.{llabs}

-- `ticks_to_us`, the product with the width of its type.
unfoldable pub ticks_to_us : ℕ → ℕ
ticks_to_us ticks = u64 (ticks * 1_000_000) / 1_000_000

-- `pps_service_status_t`
pub record PpsServiceStatus : Type 0 where
  pub initialized : Bool
  pub etm_active : Bool
  pub interval_valid : Bool
  pub last_capture_us : ℕ
  pub period_us : ℕ
  pub jitter_us : ℕ
  pub edge_count : ℕ
  pub valid_interval_count : ℕ
  pub invalid_interval_count : ℕ
  pub queue_drops : ℕ
  pub age_us : ℕ

-- The service's variables; the capture that came before is 0 where there was none.
pub record Pps : Type 0 where
  pub status : PpsServiceStatus
  pub previous_capture_us : ℕ
  pub has_queue : Bool
  pub has_timer : Bool

-- `pps_gpio_isr`, on the captured count and on whether the queue takes it: the capture that is
-- queued, if there is one.
unfoldable pub pps_gpio_isr : Option ℕ → Bool → Pps → Pps × Option ℕ
pps_gpio_isr captured queued p =
    if not p.has_timer || not p.has_queue then (p, none) else elim captured [
      | none ↦ (p, none)
      | some ticks ↦ if queued then (p, some (ticks_to_us ticks)) else (
        record p { status = record p.status { queue_drops = u32 (p.status.queue_drops + 1) } },
        none,
      )
    ]

-- The period, the jitter and the validity that a capture gives, behind one at `previous`.
unfoldable pub interval_of : ℕ → ℕ → ℕ × ℕ × Bool
interval_of previous capture =
    let period = capture - previous in
    if not (previous == 0) && ltb previous capture && ltb period (2 ^ 32)
    then (if leb 800_000 period && leb period 1_200_000
        then (period, u32 (llabs (u64 (period + 2 ^ 64 - 1_000_000))), true)
        else (period, 0, false))
    else (0, 0, false)

-- `pps_service_wait_for_capture`, on what the queue gives before the timeout.
unfoldable pub wait_for_capture : Option ℕ → Pps → Pps × Bool
wait_for_capture received p = if not p.has_queue then (p, false) else elim received [
  | none ↦ (p, false)
  | some capture ↦
      let (period, jitter, valid) = interval_of p.previous_capture_us capture in
      let first = p.previous_capture_us == 0 in
      let s = p.status in
      (
        record p {
          previous_capture_us = capture;
          status = record s {
            last_capture_us = capture;
            period_us = period;
            jitter_us = jitter;
            edge_count = u32 (s.edge_count + 1);
            interval_valid = not first && valid;
            valid_interval_count =
                if not first && valid
                then u32 (s.valid_interval_count + 1)
                else s.valid_interval_count;
            invalid_interval_count =
                if not first && not valid
                then u32 (s.invalid_interval_count + 1)
                else s.invalid_interval_count;
          };
        },
        true,
      )
]

-- `pps_service_get_monotonic_us`, on the timer's count.
unfoldable pub get_monotonic_us : Option ℕ → Pps → Option ℕ
get_monotonic_us raw p =
    if not p.has_timer
    then none
    else elim raw [ none ↦ none | some ticks ↦ some (ticks_to_us ticks) ]

-- `pps_service_get_status`: an unknown age is -1.
unfoldable pub get_pps_status : Option ℕ → Pps → PpsServiceStatus
get_pps_status raw p =
    let unknown = record p.status { age_us = 2 ^ 64 - 1 } in
    elim (get_monotonic_us raw p) [
      | none ↦ unknown
      | some now ↦
          if not (p.status.last_capture_us == 0) && leb p.status.last_capture_us now
          then record p.status { age_us = now - p.status.last_capture_us }
          else unknown
    ]

-- What the drivers answer to `pps_service_init`: whether the queue is created, and the results of
-- the calls on the timer, the event channel and the GPIO, in order.
pub record PpsDrivers : Type 0 where
  pub queue_created : Bool
  pub timer_created : Status
  pub timer_enabled : Status
  pub timer_started : Status
  pub etm_configured : List Status
  pub gpio_configured : Status
  pub isr_service_installed : Status
  pub isr_added : Status

unfoldable pub all_in_order : List Status → Status
all_in_order [] = esp_ok
all_in_order (step ∷ steps) = step >> all_in_order steps

-- An interrupt service that is there already will do.
unfoldable pub isr_service_usable : Status → Status
isr_service_usable (err invalid_state) = esp_ok
isr_service_usable answer = answer

unfoldable pub pps_service_init : PpsDrivers → Pps → Pps × Status
pps_service_init drivers p =
    if p.status.initialized
    then (p, esp_ok)
    else if not drivers.queue_created
    then (record p { has_queue = false }, err no_mem)
    else (let queued = record p { has_queue = true } in
        elim drivers.timer_created [
          | err code ↦ (queued, err code)
          | ok _ ↦
              let timed = record queued { has_timer = true } in
              elim (drivers.timer_enabled
                >> drivers.timer_started
                >> all_in_order drivers.etm_configured
                >> drivers.gpio_configured
                >> isr_service_usable drivers.isr_service_installed
                >> drivers.isr_added) [
                  | err code ↦ (timed, err code)
                  | ok _ ↦ (
                    record timed {
                      status = record timed.status {
                        initialized = true;
                        etm_active = true;
                        interval_valid = false;
                      };
                    },
                    esp_ok,
                  )
                ]
        ])
