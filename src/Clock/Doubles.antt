-- ===== src/Clock/Doubles.antt =====
-- Whole numbers in place of `double`, for the examples.
use esp32p4_nts_time_server.Base.{ℕ, ◌+◌, ◌-◌, ◌*◌, ◌/◌, ltb}
use esp32p4_nts_time_server.Clock.Discipline.{Double}

abbrev pub whole : Double
whole = record {
  F = ℕ;
  of_nat = λ n. n;
  of_int64 = λ n. n;
  add = λ x y. x + y;
  sub = λ x y. x - y;
  mul = λ x y. x * y;
  div = λ x y. x / y;
  neg = λ x. 0;
  lt = ltb;
  llround = λ x. x;
  to_uint64 = λ x. x;
}
