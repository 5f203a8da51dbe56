-- ===== src/Gnss/Ubx/Steps.antt =====
-- main/gnss_service.c: the UBX parser inside a frame, by its part of the frame.
use Prim.Native.Nat.{suc}
use esp32p4_nts_time_server.Base.{
  ℕ, ◌+◌, ◌≤◌, ◌<◌, ◌≡◌, refl, sym, ap, ◌∙◌, true, false, List, [], ◌∷◌, ◌++◌, arith, length, take,
  set, replicate, length-set, take-set, append_assoc, append-nil, u8, u16, ltb, leb, ◌==◌,
  if◌then◌else◌, ◌<<<◌, ◌>>>◌, bit_or,
}
use esp32p4_nts_time_server.Base.Bits.{bit_or_fields_low}
use esp32p4_nts_time_server.Gnss.Ubx.{
  UbxParser, UbxParseState, wait_payload, wait_ck_a, UbxOutcome, nothing, max_payload_length,
  empty_payload, ubx_parser_reset, ubx_checksum_add, consume_length_2, consume_payload,
  ubx_parser_consume, checksum, ubx_consume_all,
}

-- The parser at a point behind the two sync bytes.
abbrev pub reading : UbxParseState → ℕ → ℕ → ℕ → ℕ → ℕ → ℕ → List ℕ → UbxParser
reading state message_class message_id payload_length payload_index ck_a ck_b payload = record {
  state = state;
  message_class = message_class;
  message_id = message_id;
  payload_length = payload_length;
  payload_index = payload_index;
  ck_a = ck_a;
  ck_b = ck_b;
  received_ck_a = 0;
  received_ck_b = 0;
  payload = payload;
}

-- A run that starts with `n` bytes out of which nothing comes.
abbrev pub quietly : ℕ → UbxParser × List UbxOutcome → UbxParser × List UbxOutcome
quietly n (p, outcomes) = (p, replicate n nothing ++ outcomes)

-- The buffer with a run of bytes stored from an index on.
abbrev pub stored : List ℕ → ℕ → List ℕ → List ℕ
stored buffer k [] = buffer
stored buffer k (x ∷ xs) = stored (set buffer k x) (suc k) xs

pub take-stored :
    (buffer : List ℕ) (k n : ℕ) (xs : List ℕ)
    → k + length xs ≡ n
    → n ≤ length buffer
    → take n (stored buffer k xs) ≡ take k buffer ++ xs
take-stored buffer k n [] e h =
    let same : n ≡ k = omega arith in rw same (sym (append-nil (take k buffer)))
take-stored buffer k n (x ∷ xs) e h =
    take-stored (set buffer k x) (suc k) n xs (omega arith) (omega (arith, length-set buffer k x))
    ∙ ap (λ zs. zs ++ xs) (take-set buffer k x (omega arith))
    ∙ append_assoc (take k buffer) (x ∷ []) xs

-- A byte out of which nothing comes.
pub consume_quietly :
    (x : ℕ) (xs : List ℕ) (p q : UbxParser)
    → ubx_parser_consume x p ≡ (q, nothing)
    → ubx_consume_all (x ∷ xs) p ≡ quietly 1 (ubx_consume_all xs q)
unfolding ubx_consume_all
consume_quietly x xs p q e = rw e refl

module _ (c i n : ℕ) (fits : n ≤ max_payload_length) where
  payload_more :
      (k a b x : ℕ) (buffer : List ℕ)
      → suc k < n
      → ubx_parser_consume x (reading wait_payload c i n k a b buffer) ≡ (
        reading wait_payload c i n (suc k) (u8 (a + x)) (u8 (b + u8 (a + x))) (set buffer k x),
        nothing,
      )
  unfolding ubx_parser_consume consume_payload ubx_checksum_add
  payload_more k a b x buffer h =
      let index : u16 (k + 1) ≡ suc k = omega arith in
      let further : leb n (suc k) ≡ false = ground arith in rw (index, further) refl

  payload_last :
      (k a b x : ℕ) (buffer : List ℕ)
      → suc k ≡ n
      → ubx_parser_consume x (reading wait_payload c i n k a b buffer) ≡ (
        reading wait_ck_a c i n (suc k) (u8 (a + x)) (u8 (b + u8 (a + x))) (set buffer k x),
        nothing,
      )
  unfolding ubx_parser_consume consume_payload ubx_checksum_add
  payload_last k a b x buffer h =
      let index : u16 (k + 1) ≡ suc k = omega arith in
      let reached_end : leb n (suc k) ≡ true = ground arith in rw (index, reached_end) refl

  -- The rest of a payload.
  pub payload_run :
      (k a b x : ℕ) (xs tail buffer : List ℕ)
      → k + length (x ∷ xs) ≡ n
      → ubx_consume_all (x ∷ (xs ++ tail)) (reading wait_payload c i n k a b buffer)
        ≡ quietly (length (x ∷ xs)) (
            ubx_consume_all tail (
              reading wait_ck_a c i n n
                (checksum a b (x ∷ xs)).0
                (checksum a b (x ∷ xs)).1
                (stored buffer k (x ∷ xs))))
  unfolding ubx_consume_all checksum
  payload_run k a b x [] tail buffer e =
      let all : suc k ≡ n = omega arith in rw (payload_last k a b x buffer all, all) refl
  payload_run k a b x (y ∷ ys) tail buffer e =
      let rest =
        payload_run (suc k) (u8 (a + x)) (u8 (b + u8 (a + x))) y ys tail (set buffer k x)
          (omega arith) in
      consume_quietly x (y ∷ (ys ++ tail)) _ _ (payload_more k a b x buffer (omega arith))
      ∙ ap (quietly 1) rest

  -- The six bytes of the header.
  pub header_run :
      (tail : List ℕ)
      → let sums = checksum 0 0 (c ∷ i ∷ u8 n ∷ u8 (n >>> 8) ∷ []) in
        ubx_consume_all (181 ∷ 98 ∷ c ∷ i ∷ u8 n ∷ u8 (n >>> 8) ∷ tail) ubx_parser_reset
        ≡ quietly 6 (
            ubx_consume_all tail (
              reading
                (if n == 0 then wait_ck_a else wait_payload)
                c
                i
                n
                0
                sums.0
                sums.1
                empty_payload))
  unfolding ubx_consume_all checksum ubx_parser_reset ubx_parser_consume consume_length_2
      ubx_checksum_add
  header_run tail =
      let split : bit_or (u8 n) (u8 (n >>> 8) <<< 8) ≡ n =
        bit_or_fields_low 8 (u8 (n >>> 8)) (u8 n) (omega arith) ∙ omega arith in
      let short : ltb max_payload_length n ≡ false = ground arith in rw (split, short) refl
