-- ===== src/Nts/Keyring/Tests.antt =====
-- Rings of master keys, and the theorems about their storage over the stand-in partition.
use esp32p4_nts_time_server.Base.{ℕ, suc, ◌<◌, ◌≡◌, ◌↔◌, refl, List, ◌∷◌, Bool, some, arith, esp_ok}
use esp32p4_nts_time_server.Base.Bytes.{zeros}
use esp32p4_nts_time_server.Nts.Keyring.{
  Keyring, first_ring, rotate, validate_cookie_keyring, ring, maintain_cookie_keyring,
  generate_next_slot, empty_slot,
}
use esp32p4_nts_time_server.Nts.Keyring.Valid.{IsRing, validate_cookie_keyring_iff}
use esp32p4_nts_time_server.Nts.Keyring.Rotation.{IsKept, Rotated, rotate_total, first_ring-IsKept}
use esp32p4_nts_time_server.Nts.Keyring.Storage.{Leaves, maintain-IsKept}
use esp32p4_nts_time_server.Nts.Doubles.{toy_nvs, toy_nvs-Works, booted}

abbrev keys_of : ℕ → List ℕ
keys_of n = n ∷ zeros 31

-- A ring whose first key begins at 1,000.
abbrev young : Keyring
young = first_ring keys_of 1_000

young-IsKept : IsKept young
young-IsKept = (first_ring-IsKept keys_of 1_000 (omega arith)).0

young_ends : young.active.not_after_ntp ≡ 2_593_000
unfolding first_ring generate_next_slot
young_ends = refl

-- A ring without a key.
abbrev void : Keyring
void = record { previous = empty_slot; active = empty_slot; next = empty_slot }

void_refused : ¬ IsRing void
void_refused v = ground (arith, v.active_there.flag)

validate_cookie_keyring_iff_example : (validate_cookie_keyring void ≡ esp_ok) ↔ IsRing void
validate_cookie_keyring_iff_example = validate_cookie_keyring_iff void

-- Ten periods late.
rotate_total_example :
    (after : Keyring) × (changed : Bool) × (rotate (suc 26_000_000) keys_of 0 26_000_000 young
      ≡ some (after, changed))
    × Rotated 26_000_000 young after changed
rotate_total_example = rotate_total keys_of 26_000_000 young young-IsKept (omega arith)

maintain-IsKept_example :
    (after : Keyring) × (changed : Bool) × (rotate (suc 26_000_000) keys_of 0 26_000_000 young
      ≡ some (after, changed))
    × Leaves toy_nvs toy_nvs-Works
        (maintain_cookie_keyring toy_nvs keys_of (some 26_000_000) (booted (ring young)))
        (ring after)
    × IsKept after
    × (26_000_000 < after.active.not_after_ntp)
maintain-IsKept_example =
    maintain-IsKept toy_nvs toy_nvs-Works keys_of 26_000_000 (booted (ring young)) young refl
      young-IsKept (omega arith)
