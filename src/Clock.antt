-- ===== src/Clock.antt =====
-- The clock: its states of main/app_state.h, and its discipline.
pub mod Discipline
pub mod Doubles
pub mod Pps

-- `app_clock_state_t`
pub data ClockState : Type 0 where
  unsynchronized acquiring synchronized holdover fail_closed : ClockState
