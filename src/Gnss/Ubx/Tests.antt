-- ===== src/Gnss/Ubx/Tests.antt =====
-- A frame of two bytes.
use esp32p4_nts_time_server.Base.{ℕ, ◌+◌, ◌≡◌, List, [], ◌∷◌, ◌++◌, length, replicate, arith, All}
use esp32p4_nts_time_server.Gnss.Ubx.{
  ubx_frame, ubx_consume_all, ubx_parser_reset, nothing, dispatch,
}
use esp32p4_nts_time_server.Gnss.Ubx.RoundTrip.{ubx_consume_all-ubx_frame}
use esp32p4_nts_time_server.Gnss.Ubx.Bounds.{
  IsBounded, FitsBuffer, ubx_parser_reset-IsBounded, ubx_consume_all-IsBounded,
}

abbrev acknowledged : List ℕ
acknowledged = 6 ∷ 1 ∷ []

ubx_consume_all-ubx_frame_example :
    ubx_consume_all (ubx_frame 5 1 acknowledged) ubx_parser_reset ≡ (
      ubx_parser_reset,
      replicate (7 + length acknowledged) nothing ++ dispatch 5 1 acknowledged ∷ [],
    )
ubx_consume_all-ubx_frame_example = ubx_consume_all-ubx_frame 5 1 acknowledged (omega arith)

abbrev noise : List ℕ
noise = 181 ∷ 181 ∷ 98 ∷ 1 ∷ 7 ∷ 255 ∷ 1 ∷ 9 ∷ []

ubx_consume_all-IsBounded_example :
    IsBounded (ubx_consume_all noise ubx_parser_reset).0
    × All FitsBuffer (ubx_consume_all noise ubx_parser_reset).1
ubx_consume_all-IsBounded_example =
    ubx_consume_all-IsBounded noise ubx_parser_reset ubx_parser_reset-IsBounded
