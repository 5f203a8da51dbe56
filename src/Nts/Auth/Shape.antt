-- ===== src/Nts/Auth/Shape.antt =====
-- The extension fields of a request, described apart from the loop that reads them.
pub mod Switch
pub mod Gather
pub mod Whole
use mathlib.Core.Path.{subst}
use esp32p4_nts_time_server.Base.{
  ℕ, zero, suc, ◌+◌, ◌%◌, ◌≤◌, ◌≡◌, refl, sym, ap, ◌∙◌, inl, inr, List, [], ◌∷◌, ◌++◌, Option, none,
  some, length, take, drop, ok, err, arith, true, false, Bool-cases, Result-cases, Option-cases,
  ◌==◌, append_assoc, append-nil, ltb, if◌then◌else◌,
}
use esp32p4_nts_time_server.Base.Bytes.{read_be16}
use esp32p4_nts_time_server.Nts.Auth.{
  Seen, nothing_seen, bad_length, switch_field, see_field, walk, split_authenticator, round_up_4,
}
use esp32p4_nts_time_server.Nts.Auth.Fields.{Field, see_all}

-- The bytes are the fields one after the other: each has its type and its length in front, and
-- the length is a multiple of 4, at least 4 and within what is left.
unfoldable pub Splits : List ℕ → List Field → Type 0
Splits rest [] = length rest ≡ 0
Splits rest (f ∷ fs) =
    (n : ℕ) × (read_be16 rest ≡ f.0)
    × (read_be16 (drop 2 rest) ≡ n)
    × (4 ≤ n)
    × (n % 4 ≡ 0)
    × (n ≤ length rest)
    × (drop 4 (take n rest) ≡ f.1)
    × Splits (drop n rest) fs

-- The fields in front of the first authenticator.
unfoldable pub front : List Field → List Field
front [] = []
front (f ∷ fs) = let rest = front fs in if f.0 == 0x0404 then [] else f ∷ rest

-- The bodies of the fields of a type.
unfoldable pub bodies : ℕ → List Field → List (List ℕ)
bodies t [] = []
bodies t (f ∷ fs) = let rest = bodies t fs in if f.0 == t then f.1 ∷ rest else rest

-- The first authenticator, with its offset, where the first field is at the given one.
unfoldable pub first_auth : ℕ → List Field → Option (ℕ × List ℕ)
first_auth offset [] = none
first_auth offset (f ∷ fs) =
    let further = first_auth (offset + (4 + length f.1)) fs in
    if f.0 == 0x0404 then some (offset, f.1) else further

abbrev pub listed : Option (List ℕ) → List (List ℕ)
listed none = []
listed (some body) = body ∷ []

-- The length of what is there is in the bounds.
abbrev pub Sized : ℕ → ℕ → Option (List ℕ) → Type 0
Sized least most none = Unit
Sized least most (some body) = (least ≤ length body) × (length body ≤ most)

-- The request carries, in front of its first authenticator, one unique identifier of 32 to 256
-- bytes and one cookie of 1 to 256 bytes, and the authenticator is at the offset.
pub record Carries (packet uid cookie : List ℕ) (auth_offset : ℕ) (body : List ℕ) : Type 0 where
  pub fields : List Field
  pub split : Splits (drop 48 packet) fields
  pub one_uid : bodies 0x0104 (front fields) ≡ uid ∷ []
  pub one_cookie : bodies 0x0204 (front fields) ≡ cookie ∷ []
  pub authenticator : first_auth 48 fields ≡ some (auth_offset, body)
  pub uid_sized : (32 ≤ length uid) × (length uid ≤ 256)
  pub cookie_sized : (1 ≤ length cookie) × (length cookie ≤ 256)

-- The parts of an authenticator: a nonce of 16 bytes and a ciphertext of at least 16, each with
-- its length in front and padded to a multiple of 4.
pub record IsAuthenticator (body n ciphertext : List ℕ) : Type 0 where
  pub headed : 4 ≤ length body
  pub nonce_len : read_be16 body ≡ 16
  pub least : 16 ≤ read_be16 (drop 2 body)
  pub fits : 20 + round_up_4 (read_be16 (drop 2 body)) ≤ length body
  pub nonce : n ≡ take 16 (drop 4 body)
  pub sealed : ciphertext ≡ take (read_be16 (drop 2 body)) (drop 20 body)
