-- ===== src/Nts/Keyring/Rotation.antt =====
-- The loop of `nts_storage_maintain_cookie_keyring`: it ends, and on a ring that covers now.
use esp32p4_nts_time_server.Base.{
  ℕ, zero, suc, ◌+◌, ◌*◌, ◌<◌, ◌≤◌, ◌≡◌, ◌≢◌, refl, sym, ◌∙◌, ◌⊎◌, inl, inr, List, Bool, true,
  false, Option, some, arith, leb, ◌^◌, Bool-cases,
}
use esp32p4_nts_time_server.Nts.Keyring.{
  Keyring, key_period_seconds, next_key_id, generate_next_slot, rotate_once, rotate, first_ring,
}
use esp32p4_nts_time_server.Nts.Keyring.Valid.{IsRing}

-- The ring that the device writes: a ring of keys whose ids follow each other, and whose next
-- key lasts one period.
pub record IsKept (ring : Keyring) : Type 0 where
  pub valid : IsRing ring
  pub fits : ring.active.key_id < 2 ^ 32
  pub ids : ring.next.key_id ≡ next_key_id ring.active.key_id
  pub period : ring.next.not_after_ntp ≡ ring.next.not_before_ntp + key_period_seconds

next_key_id_bounds :
    (id : ℕ)
    → id < 2 ^ 32
    → (next_key_id id ≢ 0)
      × (next_key_id id < 2 ^ 32)
      × (next_key_id id ≢ id)
      × (next_key_id (next_key_id id) ≢ id)
unfolding next_key_id
next_key_id_bounds id h = ground arith

-- One rotation keeps the ring, as long as the end of the new key fits in 64 bits.
rotate_once-IsKept :
    (random_key : List ℕ) (r : Keyring)
    → IsKept r
    → r.next.not_after_ntp + key_period_seconds < 2 ^ 64
    → IsKept (rotate_once random_key r)
unfolding rotate_once generate_next_slot
rotate_once-IsKept random_key r k small =
    let b = next_key_id_bounds r.active.key_id k.fits in
    let fits : r.next.key_id < 2 ^ 32 = rw k.ids b.1 in
    let c = next_key_id_bounds r.next.key_id fits in
    let skip : r.active.key_id ≢ next_key_id r.next.key_id = rw k.ids (λ e. b.3 (sym e)) in
    record {
      valid = record {
        active_there = k.valid.next_there;
        next_there = record { flag = refl; named = c.0; lasts = omega (arith, small) };
        follows = refl;
        distinct = λ e. c.2 (sym e);
        precedes = inr (k.valid.active_there, sym k.valid.follows, k.valid.distinct, skip);
      };
      fits = fits;
      ids = refl;
      period = omega (arith, small);
    }

-- A ring that is kept, whose active key has not ended, and that changed only if it is marked so.
pub record Rotated (now : ℕ) (before : Keyring) (after : Keyring) (changed : Bool) : Type 0 where
  pub kept : IsKept after
  pub current : now < after.active.not_after_ntp
  pub unchanged : changed ≡ false → after ≡ before

rotate_step :
    (fuel : ℕ) (random : ℕ → List ℕ) (round now : ℕ) (r r' : Keyring) (c : Bool)
    → r.active.not_after_ntp ≤ now
    → rotate fuel random (round + 1) now (rotate_once (random round) r) ≡ some (r', c)
    → rotate (suc fuel) random round now r ≡ some (r', true)
unfolding rotate
rotate_step fuel random round now r r' c due h = ground arith

rotate_rest :
    (fuel : ℕ) (random : ℕ → List ℕ) (round now : ℕ) (r : Keyring)
    → now < r.active.not_after_ntp
    → rotate (suc fuel) random round now r ≡ some (r, false)
unfolding rotate
rotate_rest fuel random round now r current = ground arith

-- A rotation puts the end of the active key off by a period.
longer :
    (key : List ℕ) (r : Keyring)
    → IsKept r
    → (rotate_once key r).active.not_after_ntp ≡ r.active.not_after_ntp + key_period_seconds
unfolding rotate_once
longer key r k = omega (arith, k.period, k.valid.follows)

rotate_enough :
    (fuel : ℕ) (random : ℕ → List ℕ) (round now : ℕ) (r : Keyring)
    → IsKept r
    → now + 2 * key_period_seconds < 2 ^ 64
    → 0 < fuel
    → now + 1 < fuel + r.active.not_after_ntp
    → (after : Keyring) × (changed : Bool) × (rotate fuel random round now r
        ≡ some (after, changed))
      × Rotated now r after changed
rotate_enough zero random round now r k small some_fuel enough = absurd (omega arith)
rotate_enough (suc fuel) random round now r k small some_fuel enough =
    elim (Bool-cases (leb r.active.not_after_ntp now)) [
      | inr rest ↦
          let current : now < r.active.not_after_ntp = ground arith in
          (
            r,
            false,
            rotate_rest fuel random round now r current,
            record { kept = k; current = current; unchanged = λ _. refl },
          )
      | inl due ↦
          let late : r.active.not_after_ntp ≤ now = ground arith in
          let kept =
            rotate_once-IsKept (random round) r k (omega (arith, k.period, k.valid.follows)) in
          let (after, c, e, v) =
            rotate_enough fuel random (round + 1) now (rotate_once (random round) r) kept small
              (omega arith) (omega (arith, longer (random round) r k)) in
          (
            after,
            true,
            rotate_step fuel random round now r after c late e,
            record { kept = v.kept; current = v.current; unchanged = λ q. cc },
          )
    ]

-- The loop ends: with `now + 1` as fuel it gives a ring that is kept and whose active key has
-- not ended, and the same ring where it did not mark a change.
pub rotate_total :
    (random : ℕ → List ℕ) (now : ℕ) (r : Keyring)
    → IsKept r
    → now + 2 * key_period_seconds < 2 ^ 64
    → (after : Keyring) × (changed : Bool) × (rotate (suc now) random 0 now r
        ≡ some (after, changed))
      × Rotated now r after changed
rotate_total random now r k small =
    rotate_enough (suc now) random 0 now r k small (omega arith)
      (omega (arith, k.valid.active_there.lasts))

-- Maintenance that is late by less than a period rotates once: the active key stays in the ring,
-- as the previous one, and the next one, which was not yet in use, becomes the active one.
pub rotate_once_late :
    (random : ℕ → List ℕ) (now : ℕ) (r : Keyring)
    → IsKept r
    → r.active.not_after_ntp ≤ now
    → now < r.active.not_after_ntp + key_period_seconds
    → (rotate (suc now) random 0 now r ≡ some (rotate_once (random 0) r, true))
      × ((rotate_once (random 0) r).previous ≡ r.active)
      × ((rotate_once (random 0) r).active ≡ r.next)
unfolding rotate_once
rotate_once_late random now r k due soon =
    (again now (omega (arith, k.valid.active_there.lasts)), refl, refl)
  where
    again :
        (fuel : ℕ)
        → 0 < fuel
        → rotate (suc fuel) random 0 now r ≡ some (rotate_once (random 0) r, true)
    again zero h = absurd (omega arith)
    again (suc fuel) h =
        rotate_step (suc fuel) random 0 now r (rotate_once (random 0) r) false due (
          rotate_rest fuel random 1 now (rotate_once (random 0) r)
            (omega (arith, longer (random 0) r k)))

-- The ring that is written where there is none is kept, and its active key begins now.
pub first_ring-IsKept :
    (random : ℕ → List ℕ) (now : ℕ)
    → now + 2 * key_period_seconds < 2 ^ 64
    → IsKept (first_ring random now)
      × ((first_ring random now).active.not_before_ntp ≡ now)
      × (now < (first_ring random now).active.not_after_ntp)
unfolding first_ring generate_next_slot next_key_id
first_ring-IsKept random now small = (
  record {
    valid = record {
      active_there = record { flag = refl; named = omega arith; lasts = omega arith };
      next_there = record { flag = refl; named = omega arith; lasts = omega arith };
      follows = refl;
      distinct = omega arith;
      precedes = inl refl;
    };
    fits = omega arith;
    ids = refl;
    period = omega arith;
  },
  refl,
  omega arith,
)

-- What the loop leaves when it is not a period late or more.
pub rotate_near :
    (random : ℕ → List ℕ) (now : ℕ) (r after : Keyring) (changed : Bool)
    → IsKept r
    → now < r.active.not_after_ntp + key_period_seconds
    → rotate (suc now) random 0 now r ≡ some (after, changed)
    → (after ≡ r) ⊎ (after ≡ rotate_once (random 0) r)
rotate_near random now r after changed k soon e =
    elim (Bool-cases (leb r.active.not_after_ntp now)) [
      | inr rest ↦ let q = rotate_rest now random 0 now r (ground arith) in inl (same (sym e ∙ q))
      | inl due ↦
          let q = (rotate_once_late random now r k (ground arith) soon).0 in inr (same (sym e ∙ q))
    ]
  where
    same :
        {a b : Keyring} {c d : Bool}
        → ◌≡◌ {A = Option (Keyring × Bool)} (some (a, c)) (some (b, d))
        → a ≡ b
    same h = cc
