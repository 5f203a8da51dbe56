-- ===== src/Gnss/Ubx/RoundTrip.antt =====
-- main/gnss_service.c: what `ubx_write_frame` writes, the parser of the other end reads.
use Prim.Native.Nat.{zero, suc}
use esp32p4_nts_time_server.Base.{
  ℕ, ◌+◌, ◌≤◌, ◌≡◌, refl, ap, ap₂, ◌∙◌, Bool, true, false, ◌&&◌, List, [], ◌∷◌, ◌++◌, arith, length,
  take, replicate, ◌≢◌, Bool-cases, inl, inr, length-replicate, u8, ◌==◌, if◌then◌else◌, ◌>>>◌,
}
use esp32p4_nts_time_server.Gnss.Ubx.{
  UbxParser, wait_payload, wait_ck_a, UbxOutcome, nothing, invalid_checksum, dispatch,
  max_payload_length, empty_payload, ubx_parser_reset, consume_ck_b, ubx_parser_consume, checksum,
  ubx_body, ubx_frame, ubx_consume_all,
}
use esp32p4_nts_time_server.Gnss.Ubx.Steps.{
  reading, quietly, stored, take-stored, payload_run, header_run,
}

replicate-add :
    (m n : ℕ) (outcomes : List UbxOutcome)
    → replicate m nothing ++ (replicate n nothing ++ outcomes)
      ≡ replicate (m + n) nothing ++ outcomes
replicate-add zero n outcomes = ap (λ (k : ℕ). replicate k nothing ++ outcomes) (omega arith)
replicate-add (suc m) n outcomes =
    ap (λ os. nothing ∷ os) (replicate-add m n outcomes)
    ∙ ap (λ (k : ℕ). replicate k nothing ++ outcomes) (shifted m n)
  where
    shifted : (m n : ℕ) → suc (m + n) ≡ suc m + n
    shifted m n = omega arith

quietly-quietly :
    (m n : ℕ) (run : UbxParser × List UbxOutcome) → quietly m (quietly n run) ≡ quietly (m + n) run
quietly-quietly m n (p, outcomes) = ap (λ os. (p, os)) (replicate-add m n outcomes)

-- What the last byte of a frame makes of it, by the two bytes of the checksum.
abbrev pub verdict : ℕ → ℕ → List ℕ → ℕ → ℕ → UbxOutcome
verdict c i payload first second =
    let sums = checksum 0 0 (ubx_body c i payload) in
    if (first == sums.0) && (second == sums.1) then dispatch c i payload else invalid_checksum

checksum_run :
    (c i n k a b first second : ℕ) (buffer : List ℕ)
    → ubx_consume_all (first ∷ second ∷ []) (reading wait_ck_a c i n k a b buffer)
      ≡ quietly 1 (
        ubx_parser_reset,
        (if (first == a) && (second == b) then dispatch c i (take n buffer) else invalid_checksum)
            ∷ [],
      )
unfolding ubx_consume_all ubx_parser_consume consume_ck_b
checksum_run c i n k a b first second buffer = refl

length-empty_payload : length empty_payload ≡ max_payload_length
unfolding empty_payload
length-empty_payload = length-replicate max_payload_length (let z : ℕ = 0 in z)

body_run :
    (c i : ℕ) (payload tail : List ℕ)
    → length payload ≤ max_payload_length
    → let n = length payload in
      let sums = checksum 0 0 (ubx_body c i payload) in
      ubx_consume_all (181 ∷ 98 ∷ c ∷ i ∷ u8 n ∷ u8 (n >>> 8) ∷ (payload ++ tail)) ubx_parser_reset
      ≡ quietly (6 + n) (
          ubx_consume_all tail
            (reading wait_ck_a c i n n sums.0 sums.1 (stored empty_payload 0 payload)))
unfolding ubx_body checksum
body_run c i [] tail fits = header_run c i 0 fits tail
body_run c i (x ∷ xs) tail fits =
    let n = length (x ∷ xs) in
    let sums = checksum 0 0 (c ∷ i ∷ u8 n ∷ u8 (n >>> 8) ∷ []) in
    let full : (n == 0) ≡ false = ground arith in
    header_run c i n fits (x ∷ (xs ++ tail))
    ∙ ap
        (λ (test : Bool). quietly 6 (
          ubx_consume_all (x ∷ (xs ++ tail)) (
            reading (if test then wait_ck_a else wait_payload) c i n 0 sums.0 sums.1
              empty_payload)))
        full
    ∙ ap (quietly 6) (payload_run c i n fits 0 sums.0 sums.1 x xs tail empty_payload (omega arith))
    ∙ quietly-quietly 6 n _

-- A frame with any two bytes for its checksum.
frame_run :
    (c i : ℕ) (payload : List ℕ) (first second : ℕ)
    → length payload ≤ max_payload_length
    → ubx_consume_all (181 ∷ 98 ∷ (ubx_body c i payload ++ first ∷ second ∷ [])) ubx_parser_reset
      ≡ (
        ubx_parser_reset,
        replicate (7 + length payload) nothing ++ verdict c i payload first second ∷ [],
      )
unfolding ubx_body
frame_run c i payload first second fits =
    let n = length payload in
    let sums = checksum 0 0 (ubx_body c i payload) in
    let kept : take n (stored empty_payload 0 payload) ≡ payload =
      take-stored empty_payload 0 n payload (omega arith) (omega (arith, length-empty_payload)) in
    body_run c i payload (first ∷ second ∷ []) fits
    ∙ ap (quietly (6 + n))
        (checksum_run c i n n sums.0 sums.1 first second (stored empty_payload 0 payload))
    ∙ quietly-quietly (6 + n) 1 _
    ∙ ap₂
        (λ (count : ℕ) (sent : List ℕ). quietly count (
          ubx_parser_reset,
          (if (first == sums.0) && (second == sums.1) then dispatch c i sent else invalid_checksum)
              ∷ [],
        ))
        (let counted : 6 + n + 1 ≡ 7 + n = omega arith in counted) kept

-- What `ubx_write_frame` sends, the parser hands on: from the start, a frame with a payload of up
-- to 512 bytes makes it call `dispatch_ubx_frame` once, at the last byte, with the class, the id
-- and the payload that were written, no byte before that having an effect on the service; the
-- parser is then as at the start.
pub ubx_consume_all-ubx_frame :
    (c i : ℕ) (payload : List ℕ)
    → length payload ≤ max_payload_length
    → ubx_consume_all (ubx_frame c i payload) ubx_parser_reset
      ≡ (ubx_parser_reset, replicate (7 + length payload) nothing ++ dispatch c i payload ∷ [])
unfolding ubx_frame
ubx_consume_all-ubx_frame c i payload fits =
    let sums = checksum 0 0 (ubx_body c i payload) in
    let first : (sums.0 == sums.0) ≡ true = ground arith in
    let second : (sums.1 == sums.1) ≡ true = ground arith in
    frame_run c i payload sums.0 sums.1 fits
    ∙ ap
        (λ (test : Bool). (
          ubx_parser_reset,
          replicate (7 + length payload) nothing
              ++ (if test then dispatch c i payload else invalid_checksum) ∷ [],
        ))
        (ap₂ ◌&&◌ first second)

-- A frame whose two last bytes are not its checksum is never handed on: from the start, the parser
-- counts an invalid checksum at the last byte, and is then as at the start.
pub damaged_frame :
    (c i : ℕ) (payload : List ℕ) (first second : ℕ)
    → length payload ≤ max_payload_length
    → ◌≢◌ {A = ℕ × ℕ} (first, second) (checksum 0 0 (ubx_body c i payload))
    → ubx_consume_all (181 ∷ 98 ∷ (ubx_body c i payload ++ first ∷ second ∷ [])) ubx_parser_reset
      ≡ (ubx_parser_reset, replicate (7 + length payload) nothing ++ invalid_checksum ∷ [])
damaged_frame c i payload first second fits differs =
    let sums = checksum 0 0 (ubx_body c i payload) in
    let test : ((first == sums.0) && (second == sums.1)) ≡ false =
      elim (Bool-cases ((first == sums.0) && (second == sums.1))) [
        | inl e ↦ absurd (differs (ground (arith, e)))
        | inr e ↦ e
      ] in
    frame_run c i payload first second fits
    ∙ ap
        (λ (test : Bool). (
          ubx_parser_reset,
          replicate (7 + length payload) nothing
              ++ (if test then dispatch c i payload else invalid_checksum) ∷ [],
        ))
        test
