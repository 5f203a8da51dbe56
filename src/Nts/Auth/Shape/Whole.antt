-- ===== src/Nts/Auth/Shape/Whole.antt =====
-- The bytes that the loop takes to its end, and the parts of the authenticator.
use Prim.{tt}
use mathlib.Core.Path.{subst}
use esp32p4_nts_time_server.Base.{
  ℕ, zero, suc, ◌+◌, ◌%◌, ◌≤◌, ◌≡◌, refl, sym, ap, ◌∙◌, inl, inr, List, [], ◌∷◌, some, length, take,
  drop, ok, arith, false, Bool-cases, Result-cases, ◌==◌, length-drop, length-take, ltb,
}
use esp32p4_nts_time_server.Base.Bytes.{read_be16}
use esp32p4_nts_time_server.Nts.Auth.{
  Seen, nothing_seen, bad_length, see_field, walk, split_authenticator,
}
use esp32p4_nts_time_server.Nts.Auth.Fields.{Field, see_all}
use esp32p4_nts_time_server.Nts.Auth.Shape.{Splits, Sized, listed, Carries, IsAuthenticator}
use esp32p4_nts_time_server.Nts.Auth.Shape.Gather.{see_all-Gathers}

bad_length-facts : (n left : ℕ) → bad_length n left ≡ false → (4 ≤ n) × (n % 4 ≡ 0) × (n ≤ left)
unfolding bad_length
bad_length-facts n left h = (ground (arith, h), ground (arith, h), ground (arith, h))

-- A field is as long as its length says.
length-field :
    (n : ℕ) (rest : List ℕ) → 4 ≤ n → n ≤ length rest → 4 + length (drop 4 (take n rest)) ≡ n
length-field n rest least most =
    omega (arith, length-drop 4 (take n rest), length-take n rest, least, most)

see_all_next :
    (f : Field) (fs : List Field) (offset : ℕ) (seen next last : Seen)
    → see_field f.0 f.1 offset seen ≡ ok next
    → see_all (offset + (4 + length f.1)) fs next ≡ ok last
    → see_all offset (f ∷ fs) seen ≡ ok last
unfolding see_all
see_all_next f fs offset seen next last q h = ground (arith, q, h)

-- Where the loop comes to its end, the bytes are fields, and it has seen each of them in turn.
walk-Splits :
    (fuel : ℕ) (rest : List ℕ) (offset : ℕ) (seen last : Seen)
    → walk fuel rest offset seen ≡ ok last
    → (fs : List Field) × Splits rest fs × (see_all offset fs seen ≡ ok last)
unfolding walk Splits see_all
walk-Splits zero rest offset seen last h = absurd (ground (arith, h))
walk-Splits (suc fuel) rest offset seen last h =
    let n = read_be16 (drop 2 rest) in
    let body = drop 4 (take n rest) in
    elim (Bool-cases (length rest == 0)) [
      | inl done ↦ ([], ground (arith, done), ground (arith, h, done))
      | inr more ↦ elim (Bool-cases (ltb (length rest) 4)) [
        | inl short ↦ absurd (ground (arith, h, more, short))
        | inr head ↦ elim (Bool-cases (bad_length n (length rest))) [
          | inl bad ↦ absurd (ground (arith, h, more, head, bad))
          | inr good ↦ elim (Result-cases (see_field (read_be16 rest) body offset seen)) [
            | inr (e, q) ↦ absurd (ground (arith, h, more, head, good, q))
            | inl (next, q) ↦
                let (least, fours, most) = bad_length-facts n (length rest) good in
                let (fs, split, seen_all) =
                  walk-Splits fuel (drop n rest) (offset + n) next last
                    (ground (arith, h, more, head, good, q)) in
                (
                  (read_be16 rest, body) ∷ fs,
                  (n, refl, refl, least, fours, most, refl, split),
                  see_all_next (read_be16 rest, body) fs offset seen next last q
                      (subst (λ (k : ℕ). see_all (offset + k) fs next ≡ ok last)
                        (sym (length-field n rest least most)) seen_all),
                )
          ]
        ]
      ]
    ]

pub walk-Carries :
    (packet uid cookie : List ℕ) (auth_offset : ℕ) (body : List ℕ) (last : Seen)
    → walk (length packet) (drop 48 packet) 48 nothing_seen ≡ ok last
    → last.uid ≡ some uid
    → last.cookie ≡ some cookie
    → last.auth ≡ some (auth_offset, body)
    → Carries packet uid cookie auth_offset body
walk-Carries packet uid cookie auth_offset body last h u c a =
    let (fs, split, all) = walk-Splits (length packet) (drop 48 packet) 48 nothing_seen last h in
    let g = see_all-Gathers fs 48 nothing_seen last refl all in
    record {
      fields = fs;
      split = split;
      one_uid = sym g.uid ∙ ap listed u;
      one_cookie = sym g.cookie ∙ ap listed c;
      authenticator = sym g.auth ∙ a;
      uid_sized = subst (Sized 32 256) u (g.uid_sized tt);
      cookie_sized = subst (Sized 1 256) c (g.cookie_sized tt);
    }

pub split_authenticator-IsAuthenticator :
    (body : List ℕ) (parts : List ℕ × List ℕ)
    → split_authenticator body ≡ ok parts
    → IsAuthenticator body parts.0 parts.1
unfolding split_authenticator
split_authenticator-IsAuthenticator body parts h = record {
  headed = ground (arith, h);
  nonce_len = ground (arith, h);
  least = ground (arith, h);
  fits = ground (arith, h);
  nonce = ground (arith, h);
  sealed = ground (arith, h);
}
