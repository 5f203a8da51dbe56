-- ===== src/Ntp/Packet.antt =====
-- main/ntp_packet.c and main/ntp_types.h: the 48-byte NTP header. A buffer of `length` bytes is
-- the list of those bytes; an int8_t is kept as its bit pattern, a number below 256.
pub mod RoundTrip
mod Tests
use esp32p4_nts_time_server.Base.{
  ℕ, ◌≡◌, ◌<◌, ◌^◌, List, [], ◌∷◌, ◌++◌, Option, none, some, length, drop, ltb, if◌then◌else◌, u8,
  u32, ◌<<<◌, ◌>>>◌, bit_and, bit_or,
}
use esp32p4_nts_time_server.Base.Bytes.{byte_at, read_be32, be32_bytes}

abbrev pub ntp_packet_size : ℕ
ntp_packet_size = 48

pub record NtpTimestamp : Type 0 where
  pub seconds : ℕ
  pub fraction : ℕ

pub record NtpPacketFields : Type 0 where
  pub leap_indicator : ℕ
  pub version : ℕ
  pub mode : ℕ
  pub stratum : ℕ
  pub precision : ℕ
  pub root_delay : ℕ
  pub root_dispersion : ℕ
  pub reference_id : ℕ
  pub reference_timestamp : NtpTimestamp
  pub origin_timestamp : NtpTimestamp
  pub receive_timestamp : NtpTimestamp
  pub transmit_timestamp : NtpTimestamp

unfoldable pub read_timestamp : List ℕ → NtpTimestamp
read_timestamp p = record { seconds = read_be32 p; fraction = read_be32 (drop 4 p) }

-- The eight bytes that `write_timestamp` stores.
unfoldable pub timestamp_bytes : NtpTimestamp → List ℕ
timestamp_bytes t = be32_bytes t.seconds ++ be32_bytes t.fraction

-- What `ntp_packet_parse` stores in `*out_packet`.
unfoldable pub parsed_fields : List ℕ → NtpPacketFields
parsed_fields buffer =
    let first_octet = byte_at buffer 0 in
    record {
      leap_indicator = bit_and (first_octet >>> 6) 0x03;
      version = bit_and (first_octet >>> 3) 0x07;
      mode = bit_and first_octet 0x07;
      stratum = byte_at buffer 1;
      precision = byte_at buffer 3;
      root_delay = read_be32 (drop 4 buffer);
      root_dispersion = read_be32 (drop 8 buffer);
      reference_id = read_be32 (drop 12 buffer);
      reference_timestamp = read_timestamp (drop 16 buffer);
      origin_timestamp = read_timestamp (drop 24 buffer);
      receive_timestamp = read_timestamp (drop 32 buffer);
      transmit_timestamp = read_timestamp (drop 40 buffer);
    }

-- `none` is the return value false.
unfoldable pub parse : List ℕ → Option NtpPacketFields
parse buffer = if ltb (length buffer) ntp_packet_size then none else some (parsed_fields buffer)

unfoldable pub first_octet_of : NtpPacketFields → ℕ
first_octet_of p = u8 (
    bit_or (bit_or (bit_and p.leap_indicator 0x03 <<< 6) (bit_and p.version 0x07 <<< 3))
      (bit_and p.mode 0x07))

-- The stores cover the 48 bytes, so the buffer is what they store, in the order of the offsets.
unfoldable pub build : NtpPacketFields → List ℕ
build p =
    (first_octet_of p ∷ p.stratum ∷ 6 ∷ u8 p.precision ∷ [])
    ++ be32_bytes p.root_delay
    ++ be32_bytes p.root_dispersion
    ++ be32_bytes p.reference_id
    ++ timestamp_bytes p.reference_timestamp
    ++ timestamp_bytes p.origin_timestamp
    ++ timestamp_bytes p.receive_timestamp
    ++ timestamp_bytes p.transmit_timestamp

-- A text of four characters as a 32-bit reference id.
unfoldable pub refid_from_text : List ℕ → ℕ
refid_from_text text =
    bit_or
      (bit_or (bit_or (u32 (u8 (byte_at text 0) <<< 24)) (u8 (byte_at text 1) <<< 16))
        (u8 (byte_at text 2) <<< 8))
      (u8 (byte_at text 3))
