-- ===== src/Ntp/Packet/RoundTrip.antt =====
-- Parsing and building the NTP header are inverse to one another, up to the poll octet.
use esp32p4_nts_time_server.Base.{
  ℕ, ◌≡◌, ◌<◌, ◌≤◌, ◌^◌, ◌*◌, ◌+◌, ◌/◌, ◌%◌, List, [], ◌∷◌, ◌++◌, some, length, drop, take, set,
  arith, refl, ap, ◌∙◌, drop-drop, take-append-take-drop, length-drop, bit_and, u8, All-drop,
  append_assoc, append-nil, zero, suc,
}
use esp32p4_nts_time_server.Base.Bits.{bit_and_mask, bit_or_fields}
use esp32p4_nts_time_server.Base.Bytes.{
  IsByte, IsBytes, read_be32, be32_bytes, read_be32-bytes, be32_bytes-read_be32,
}
use esp32p4_nts_time_server.Ntp.Packet.{
  NtpTimestamp, NtpPacketFields, parsed_fields, read_timestamp, timestamp_bytes, parse,
  first_octet_of, build,
}

-- Fields that fit their places in the header.
abbrev pub TimestampFits : NtpTimestamp → Type 0
TimestampFits t = (t.seconds < 2 ^ 32) × (t.fraction < 2 ^ 32)

pub record Fits (p : NtpPacketFields) : Type 0 where
  pub leap_indicator : p.leap_indicator < 4
  pub version : p.version < 8
  pub mode : p.mode < 8
  pub stratum : p.stratum < 256
  pub precision : p.precision < 256
  pub root_delay : p.root_delay < 2 ^ 32
  pub root_dispersion : p.root_dispersion < 2 ^ 32
  pub reference_id : p.reference_id < 2 ^ 32
  pub reference_timestamp : TimestampFits p.reference_timestamp
  pub origin_timestamp : TimestampFits p.origin_timestamp
  pub receive_timestamp : TimestampFits p.receive_timestamp
  pub transmit_timestamp : TimestampFits p.transmit_timestamp

first_octet_sum :
    (p : NtpPacketFields)
    → first_octet_of p ≡ p.leap_indicator % 4 * 64 + p.version % 8 * 8 + p.mode % 8
unfolding first_octet_of
first_octet_sum p = ground (
  arith,
  bit_and_mask 2 p.leap_indicator,
  bit_and_mask 3 p.version,
  bit_and_mask 3 p.mode,
  bit_or_fields 6 (p.leap_indicator % 4) (p.version % 8 * 8),
  bit_or_fields 3 (p.leap_indicator % 4 * 8 + p.version % 8) (p.mode % 8),
)

read_timestamp-bytes :
    (t : NtpTimestamp) (rest : List ℕ)
    → TimestampFits t
    → read_timestamp (timestamp_bytes t ++ rest) ≡ t
unfolding read_timestamp timestamp_bytes be32_bytes
read_timestamp-bytes t rest h = λ i. record {
  seconds = read_be32-bytes t.seconds (be32_bytes t.fraction ++ rest) h.0 i;
  fraction = read_be32-bytes t.fraction rest h.1 i;
}

-- Building a header from fields that fit their places and parsing it gives the fields back.
pub parse-build : (p : NtpPacketFields) → Fits p → parse (build p) ≡ some p
unfolding parse build timestamp_bytes be32_bytes parsed_fields
parse-build p h = λ i. some (record {
  leap_indicator = leap i;
  version = version i;
  mode = mode i;
  stratum = p.stratum;
  precision = precision i;
  root_delay =
      read_be32-bytes p.root_delay (be32_bytes p.root_dispersion ++ after_dispersion) h.root_delay
        i;
  root_dispersion = read_be32-bytes p.root_dispersion after_dispersion h.root_dispersion i;
  reference_id = read_be32-bytes p.reference_id after_id h.reference_id i;
  reference_timestamp =
      read_timestamp-bytes p.reference_timestamp after_reference h.reference_timestamp i;
  origin_timestamp = read_timestamp-bytes p.origin_timestamp after_origin h.origin_timestamp i;
  receive_timestamp =
      read_timestamp-bytes p.receive_timestamp (timestamp_bytes p.transmit_timestamp)
        h.receive_timestamp i;
  transmit_timestamp = read_timestamp-bytes p.transmit_timestamp [] h.transmit_timestamp i;
})
  where
    after_origin : List ℕ
    after_origin = timestamp_bytes p.receive_timestamp ++ timestamp_bytes p.transmit_timestamp

    after_reference : List ℕ
    after_reference = timestamp_bytes p.origin_timestamp ++ after_origin

    after_id : List ℕ
    after_id = timestamp_bytes p.reference_timestamp ++ after_reference

    after_dispersion : List ℕ
    after_dispersion = be32_bytes p.reference_id ++ after_id

    leap : bit_and (first_octet_of p / 64) 3 ≡ p.leap_indicator
    leap =
        ground (arith, h.leap_indicator, first_octet_sum p, bit_and_mask 2 (first_octet_of p / 64))

    version : bit_and (first_octet_of p / 8) 7 ≡ p.version
    version = ground (arith, h.version, first_octet_sum p, bit_and_mask 3 (first_octet_of p / 8))

    mode : bit_and (first_octet_of p) 7 ≡ p.mode
    mode = ground (arith, h.mode, first_octet_sum p, bit_and_mask 3 (first_octet_of p))

    precision : u8 p.precision ≡ p.precision
    precision = omega (arith, h.precision)

-- The field at offset `n` is stored back as the four bytes that stood there.
word_back :
    (n : ℕ) (buffer : List ℕ)
    → IsBytes buffer
    → n + 4 ≤ length buffer
    → be32_bytes (read_be32 (drop n buffer)) ≡ take 4 (drop n buffer)
word_back n buffer b l =
    be32_bytes-read_be32 (drop n buffer) (All-drop IsByte n buffer b)
      (omega (arith, length-drop n buffer))

words_back : (k n : ℕ) (buffer : List ℕ) → List ℕ
words_back zero n buffer = []
words_back (suc k) n buffer = be32_bytes (read_be32 (drop n buffer)) ++ words_back k (n + 4) buffer

-- `k` fields from offset `n` on.
words_back_lem :
    (k n : ℕ) (buffer : List ℕ)
    → IsBytes buffer
    → n + 4 * k ≤ length buffer
    → words_back k n buffer ≡ take (4 * k) (drop n buffer)
unfolding words_back
words_back_lem zero n buffer b l = refl
words_back_lem (suc k) n buffer b l =
    rw
      (
        word_back n buffer b (omega arith),
        words_back_lem k (n + 4) buffer b (omega arith),
        ← drop-drop 4 n buffer,
        take-append-take-drop 4 (4 * k) (drop n buffer),
      )
      (ap (λ m. take m (drop n buffer)) (omega arith))

header_octets :
    (a s q d : ℕ) (rest : List ℕ)
    → a < 256
    → d < 256
    → let p = parsed_fields (a ∷ s ∷ q ∷ d ∷ rest) in
      (first_octet_of p ≡ a) × (p.stratum ≡ s) × (u8 p.precision ≡ d)
unfolding parsed_fields
header_octets a s q d rest ha hd = (
  ground (
    arith,
    first_octet_sum (parsed_fields (a ∷ s ∷ q ∷ d ∷ rest)),
    bit_and_mask 2 (a / 64),
    bit_and_mask 3 (a / 8),
    bit_and_mask 3 a,
  ),
  refl,
  omega arith,
)

-- The part of a header behind its first four octets, stored back.
stored_words : NtpPacketFields → List ℕ
stored_words p =
    be32_bytes p.root_delay
    ++ be32_bytes p.root_dispersion
    ++ be32_bytes p.reference_id
    ++ timestamp_bytes p.reference_timestamp
    ++ timestamp_bytes p.origin_timestamp
    ++ timestamp_bytes p.receive_timestamp
    ++ timestamp_bytes p.transmit_timestamp

stored_words_back :
    (a s q d : ℕ) (rest : List ℕ)
    → stored_words (parsed_fields (a ∷ s ∷ q ∷ d ∷ rest)) ≡ words_back 11 0 rest
unfolding stored_words parsed_fields read_timestamp timestamp_bytes words_back
stored_words_back a s q d rest = simp (append_assoc, drop-drop, append-nil)

-- Parsing a full header and building it again gives the same 48 bytes, except that octet 2, the
-- poll interval, is written as 6.
pub build-parse :
    (buffer : List ℕ)
    → IsBytes buffer
    → 48 ≤ length buffer
    → (p : NtpPacketFields) × (parse buffer ≡ some p) × (build p ≡ take 48 (set buffer 2 6))
unfolding parse build stored_words
build-parse [] b l = absurd (omega arith)
build-parse (a ∷ []) b l = absurd (omega arith)
build-parse (a ∷ s ∷ []) b l = absurd (omega arith)
build-parse (a ∷ s ∷ q ∷ []) b l = absurd (omega arith)
build-parse (a ∷ s ∷ q ∷ d ∷ rest) b l =
    (fields, ground arith, λ i. octets.0 i ∷ octets.1 i ∷ 6 ∷ octets.2 i ∷ words i)
  where
    fields : NtpPacketFields
    fields = parsed_fields (a ∷ s ∷ q ∷ d ∷ rest)

    octets : (first_octet_of fields ≡ a) × (fields.stratum ≡ s) × (u8 fields.precision ≡ d)
    octets = header_octets a s q d rest b.0 b.1.1.1.0

    words : stored_words fields ≡ take 44 rest
    words = stored_words_back a s q d rest ∙ words_back_lem 11 0 rest b.1.1.1.1 (omega arith)
