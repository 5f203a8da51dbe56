-- ===== src/Gnss/Nmea.antt =====
-- main/gnss_service.c: the checksum and the fields of an NMEA line. A line is the list of its
-- characters' codes, up to the terminating zero.
use esp32p4_nts_time_server.Base.{
  ℕ, ◌+◌, ◌-◌, ◌*◌, ◌^◌, min, Bool, false, not, ◌&&◌, ◌||◌, Option, none, some, List, [], ◌∷◌,
  length, drop, ltb, leb, ◌==◌, if◌then◌else◌, bit_xor,
}
use esp32p4_nts_time_server.Base.Bytes.{byte_at}
use esp32p4_nts_time_server.Gnss.Dates.{is_digit, parse_two_digits, datetime_to_epoch}

-- The characters before the first `c`; all of them where there is none.
unfoldable pub before : ℕ → List ℕ → List ℕ
before c [] = []
before c (x ∷ xs) = if x == c then [] else x ∷ before c xs

-- `strchr`: the characters behind the first `c`.
unfoldable pub behind : ℕ → List ℕ → Option (List ℕ)
behind c [] = none
behind c (x ∷ xs) = if x == c then some xs else behind c xs

-- `isxdigit`
unfoldable pub is_hex_digit : ℕ → Bool
is_hex_digit c = is_digit c || (leb 97 c && leb c 102) || (leb 65 c && leb c 70)

unfoldable pub hex_value : ℕ → ℕ
hex_value c = if is_digit c then c - 48 else if leb 97 c then c - 87 else c - 55

unfoldable pub xor_all : ℕ → List ℕ → ℕ
xor_all sum [] = sum
xor_all sum (x ∷ xs) = xor_all (bit_xor sum x) xs

unfoldable pub nmea_checksum_valid : List ℕ → Bool
nmea_checksum_valid line = if not (byte_at line 0 == 36) then false else elim (behind 42 line) [
  | none ↦ false
  | some digits ↦
      if not (is_hex_digit (byte_at digits 0)) || not (is_hex_digit (byte_at digits 1))
      then false
      else xor_all 0 (drop 1 (before 42 line))
        == hex_value (byte_at digits 0) * 16 + hex_value (byte_at digits 1)
]

-- The tokens of `strtok_r` at commas, in order: none of them is empty.
unfoldable pub tokens : List ℕ → List ℕ → List (List ℕ)
tokens [] [] = []
tokens (t ∷ ts) [] = (t ∷ ts) ∷ []
tokens token (x ∷ xs) =
    let closed = tokens [] xs in
    let open_on = tokens (token_push token x) xs in
    if x == 44 then (if length token == 0 then closed else token ∷ closed) else open_on
  where
    token_push : List ℕ → ℕ → List ℕ
    token_push [] x = x ∷ []
    token_push (t ∷ ts) x = t ∷ token_push ts x

-- The digits at the front, as a number.
unfoldable pub digits_value : ℕ → List ℕ → ℕ
digits_value value [] = value
digits_value value (x ∷ xs) =
    let further = digits_value (value * 10 + (x - 48)) xs in if is_digit x then further else value

-- `isspace`
unfoldable pub is_space : ℕ → Bool
is_space c = (c == 32) || (leb 9 c && leb c 13)

unfoldable pub skip_spaces : List ℕ → List ℕ
skip_spaces [] = []
skip_spaces (x ∷ xs) = if is_space x then skip_spaces xs else x ∷ xs

-- `atoi`, as `strtol` of a 32-bit `long`: a number out of range is the last one in range.
unfoldable pub atoi : List ℕ → ℕ
atoi text =
    let t = skip_spaces text in
    if byte_at t 0 == 45
    then (let size = min (digits_value 0 (drop 1 t)) (2 ^ 31) in
        if size == 0 then 0 else 2 ^ 32 - size)
    else min (digits_value 0 (if byte_at t 0 == 43 then drop 1 t else t)) (2 ^ 31 - 1)

-- The test of the message's name: its last three characters are `ZDA`.
unfoldable pub is_zda : List ℕ → Bool
is_zda message =
    let name = drop (length message - 3) message in
    leb 3 (length message)
    && (byte_at name 0 == 90)
    && (byte_at name 1 == 68)
    && (byte_at name 2 == 65)

unfoldable pub parse_zda_time : List ℕ → List ℕ → List ℕ → List ℕ → Option ℕ
parse_zda_time utc_text day_text month_text year_text =
    if ltb (length utc_text) 6 then none else elim (parse_two_digits utc_text) [
      | none ↦ none
      | some hour ↦ elim (parse_two_digits (drop 2 utc_text)) [
        | none ↦ none
        | some minute ↦ elim (parse_two_digits (drop 4 utc_text)) [
          | none ↦ none
          | some second ↦
              datetime_to_epoch (atoi year_text) (atoi month_text) (atoi day_text) hour minute
                second
        ]
      ]
    ]

unfoldable pub parse_zda_fields : List (List ℕ) → Option ℕ
parse_zda_fields (message ∷ utc_text ∷ day_text ∷ month_text ∷ year_text ∷ others) =
    if is_zda message then parse_zda_time utc_text day_text month_text year_text else none
parse_zda_fields _ = none

unfoldable pub parse_zda_epoch : List ℕ → Option ℕ
parse_zda_epoch line =
    if (length line == 0) || leb 160 (length line)
    then none
    else parse_zda_fields (tokens [] (before 42 line))
