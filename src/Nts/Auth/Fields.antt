-- ===== src/Nts/Auth/Fields.antt =====
-- The loop over the extension fields: it ends, and on fields that are laid out one after the
-- other it sees each of them in turn.
use esp32p4_nts_time_server.Base.{
  ℕ, zero, suc, ◌+◌, ◌%◌, ◌^◌, ◌<◌, ◌≤◌, ◌≡◌, ◌≢◌, refl, ap, ◌∙◌, inl, inr, List, [], ◌∷◌, ◌++◌,
  length, take, drop, ok, err, Result, EspErr, fail, arith, false, Bool-cases, Result-cases, ◌==◌,
  ltb, All, take_prefix, drop_prefix, length-append, length-drop,
}
use esp32p4_nts_time_server.Base.Bytes.{read_be16, be16_bytes, read_be16-bytes}
use esp32p4_nts_time_server.Nts.Auth.{
  Seen, bad_length, switch_field, see_field, walk, append_extension,
}

-- A field as its type and its body, and its bytes.
abbrev pub Field : Type 0
Field = ℕ × List ℕ

abbrev pub field_bytes : Field → List ℕ
field_bytes f = be16_bytes f.0 ++ (be16_bytes (4 + length f.1) ++ f.1)

pub length-field_bytes : (f : Field) → length (field_bytes f) ≡ 4 + length f.1
unfolding be16_bytes
length-field_bytes f = omega arith

abbrev pub packed : List Field → List ℕ
packed [] = []
packed (f ∷ fs) = field_bytes f ++ packed fs

-- The type and the length fit 16 bits, and the length is a multiple of 4.
abbrev pub FieldFits : Field → Type 0
FieldFits f = (f.0 < 2 ^ 16) × (4 + length f.1 < 2 ^ 16) × (length f.1 % 4 ≡ 0)

-- The fields in turn, the first at `offset`.
unfoldable pub see_all : ℕ → List Field → Seen → Result Seen
see_all offset [] seen = ok seen
see_all offset (f ∷ fs) seen = elim (see_field f.0 f.1 offset seen) [
  | err e ↦ err e
  | ok next ↦ see_all (offset + (4 + length f.1)) fs next
]

see_field-ne-fail :
    (t : ℕ) (body : List ℕ) (offset : ℕ) (seen : Seen) → see_field t body offset seen ≢ err fail
unfolding see_field switch_field
see_field-ne-fail t body offset seen h = ground arith

-- One round of the loop, by the parts that it reads.
walk_step :
    (fuel t n : ℕ) (bytes body tail : List ℕ) (offset : ℕ) (seen : Seen)
    → 4 ≤ length bytes
    → read_be16 bytes ≡ t
    → read_be16 (drop 2 bytes) ≡ n
    → bad_length n (length bytes) ≡ false
    → drop 4 (take n bytes) ≡ body
    → drop n bytes ≡ tail
    → walk (suc fuel) bytes offset seen ≡ (elim (see_field t body offset seen) [
      | err e ↦ err e
      | ok next ↦ walk fuel tail (offset + n) next
    ])
unfolding walk
walk_step fuel t n bytes body tail offset seen long et en fine eb el =
    elim (Result-cases (see_field t body offset seen)) [
      | inl (next, q) ↦ ground (arith, fine, et, en, eb, el)
      | inr (e, q) ↦ ground (arith, fine, et, en, eb, el)
    ]

bad_length-false : (n left : ℕ) → bad_length n left ≡ false → (4 ≤ n) × (n ≤ left)
unfolding bad_length
bad_length-false n left h = ground arith

-- The loop ends before its fuel where that is more than the bytes: each field takes four or more.
pub walk_ends :
    (fuel : ℕ) (rest : List ℕ) (offset : ℕ) (seen : Seen)
    → length rest < fuel
    → walk fuel rest offset seen ≢ err fail
unfolding walk
walk_ends zero rest offset seen h e = absurd (omega arith)
walk_ends (suc fuel) rest offset seen h e =
    let field_len = read_be16 (drop 2 rest) in
    let body = drop 4 (take field_len rest) in
    elim (Bool-cases (length rest == 0)) [
      | inl done ↦ absurd (ground arith)
      | inr more ↦ elim (Bool-cases (ltb (length rest) 4)) [
        | inl short ↦ absurd (ground arith)
        | inr head ↦ elim (Bool-cases (bad_length field_len (length rest))) [
          | inl bad ↦ absurd (ground arith)
          | inr good ↦ elim (Result-cases (see_field (read_be16 rest) body offset seen)) [
            | inr (code, q) ↦
                see_field-ne-fail (read_be16 rest) body offset seen
                  (q ∙ ap err (stopped code q good head more))
            | inl (next, q) ↦
                let steps = bad_length-false field_len (length rest) good in
                walk_ends fuel (drop field_len rest) (offset + field_len) next
                  (omega (arith, length-drop field_len rest, steps)) (ground arith)
          ]
        ]
      ]
    ]
  where
    stopped :
        (code : EspErr)
        → see_field (read_be16 rest) (drop 4 (take (read_be16 (drop 2 rest)) rest)) offset seen
          ≡ err code
        → bad_length (read_be16 (drop 2 rest)) (length rest) ≡ false
        → ltb (length rest) 4 ≡ false
        → (length rest == 0) ≡ false
        → code ≡ fail
    stopped code q good head more = ground arith

-- A packet with room for a field, and what follows it.
pub append_extension-packed :
    (capacity : ℕ) (f : Field) (packet : List ℕ)
    → FieldFits f
    → length packet + (4 + length f.1) ≤ capacity
    → append_extension capacity f.0 f.1 packet ≡ ok (packet ++ field_bytes f)
unfolding append_extension
append_extension-packed capacity f packet fits room = ground (arith, fits)

-- A field in front of others: where it stands, and what is behind it.
field_parts :
    (f : Field) (rest : List ℕ)
    → FieldFits f
    → let bytes = field_bytes f ++ rest in
      (read_be16 bytes ≡ f.0)
      × (read_be16 (drop 2 bytes) ≡ 4 + length f.1)
      × (drop 4 bytes ≡ f.1 ++ rest)
      × (length bytes ≡ 4 + length f.1 + length rest)
unfolding be16_bytes
field_parts f rest fits = (
  read_be16-bytes f.0 (be16_bytes (4 + length f.1) ++ (f.1 ++ rest)) fits.0,
  read_be16-bytes (4 + length f.1) (f.1 ++ rest) fits.1,
  refl,
  omega (arith, length-append f.1 rest),
)

see_field_next :
    (fuel : ℕ) (f : Field) (rest : List ℕ) (offset : ℕ) (seen : Seen)
    → FieldFits f
    → walk (suc fuel) (field_bytes f ++ rest) offset seen ≡ (elim (see_field f.0 f.1 offset seen) [
      | err e ↦ err e
      | ok next ↦ walk fuel rest (offset + (4 + length f.1)) next
    ])
unfolding be16_bytes bad_length
see_field_next fuel f rest offset seen fits =
    let (t, n, _, l) = field_parts f rest fits in
    let size : length (field_bytes f) ≡ 4 + length f.1 = omega arith in
    walk_step fuel f.0 (4 + length f.1) (field_bytes f ++ rest) f.1 rest offset seen
      (omega (arith, l)) t n (ground (arith, l, fits))
      (ap (λ (b : List ℕ). drop 4 b) (take_prefix (4 + length f.1) (field_bytes f) rest size))
      (drop_prefix (4 + length f.1) (field_bytes f) rest size)

walk-nil : (fuel offset : ℕ) (seen : Seen) → walk (suc fuel) [] offset seen ≡ ok seen
unfolding walk
walk-nil fuel offset seen = refl

-- On fields that fit, laid out one after the other, the loop sees each of them in turn with its
-- offset, where the fuel is more than their number.
pub walk-packed :
    (fuel : ℕ) (fs : List Field) (offset : ℕ) (seen : Seen)
    → All FieldFits fs
    → length fs < fuel
    → walk fuel (packed fs) offset seen ≡ see_all offset fs seen
unfolding see_all
walk-packed zero fs offset seen fits h = absurd (omega arith)
walk-packed (suc fuel) [] offset seen fits h = walk-nil fuel offset seen
walk-packed (suc fuel) (f ∷ fs) offset seen fits h =
    see_field_next fuel f (packed fs) offset seen fits.0
    ∙ (elim (Result-cases (see_field f.0 f.1 offset seen)) [
      | inr (e, q) ↦ ground arith
      | inl (next, q) ↦
          let rest = walk-packed fuel fs (offset + (4 + length f.1)) next fits.1 (omega arith) in
          ground (arith, rest)
    ])
