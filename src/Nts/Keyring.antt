-- ===== src/Nts/Keyring.antt =====
-- main/nts_storage.c: the ring of three cookie master keys, PREVIOUS, ACTIVE and NEXT, that is
-- kept in an encrypted NVS partition. NVS is the parameter `nvs`, with its contents as the
-- state `Store`; `clock` is what `clock_discipline_get_ntp_timestamp` answers, the seconds or
-- nothing; `random n` is the n-th block that `esp_fill_random` gives during a call. The mutex
-- makes each call one step, so it is not part of the state once it is created.
pub mod Valid
pub mod Rotation
pub mod Storage
mod Tests
use esp32p4_nts_time_server.Base.{
  ℕ, zero, suc, ◌+◌, ◌*◌, ◌%◌, ◌^◌, List, [], ◌∷◌, Bool, true, false, not, ◌&&◌, ◌||◌, Option, none,
  some, ltb, leb, ◌==◌, if◌then◌else◌, u32, u64, Result, ok, err, EspErr, Status, esp_ok,
  invalid_state, not_found, invalid_size, no_mem, nvs_not_found,
}
use esp32p4_nts_time_server.Base.Bytes.{zeros}

-- `nts_storage_cookie_key_t`; `valid` is a byte.
pub record CookieKey : Type 0 where
  pub key_id : ℕ
  pub not_before_ntp : ℕ
  pub not_after_ntp : ℕ
  pub key : List ℕ
  pub valid : ℕ

-- `nts_storage_cookie_keyring_t`, the slots by the names of their indices.
pub record Keyring : Type 0 where
  pub previous : CookieKey
  pub active : CookieKey
  pub next : CookieKey

abbrev pub slots : Keyring → List CookieKey
slots ring = ring.previous ∷ ring.active ∷ ring.next ∷ []

abbrev pub key_period_seconds : ℕ
key_period_seconds = 2_592_000

unfoldable pub slot_valid_value : CookieKey → Bool
slot_valid_value slot = slot.valid == 0 || slot.valid == 1

unfoldable pub populated_slot_valid : CookieKey → Bool
populated_slot_valid slot =
    slot.valid == 1 && not (slot.key_id == 0) && ltb slot.not_before_ntp slot.not_after_ntp

-- The inner loop of `key_ids_distinct`: no valid slot of the rest has the id.
unfoldable pub id_absent : ℕ → List CookieKey → Bool
id_absent id [] = true
id_absent id (slot ∷ rest) = not (not (slot.valid == 0) && id == slot.key_id) && id_absent id rest

unfoldable pub ids_distinct : List CookieKey → Bool
ids_distinct [] = true
ids_distinct (slot ∷ rest) = (slot.valid == 0 || id_absent slot.key_id rest) && ids_distinct rest

unfoldable pub key_ids_distinct : Keyring → Bool
key_ids_distinct ring = ids_distinct (slots ring)

-- The loop over the slots at the start of `validate_cookie_keyring`.
unfoldable pub each_slot_valid : List CookieKey → Bool
each_slot_valid [] = true
each_slot_valid (slot ∷ rest) =
    slot_valid_value slot && (slot.valid == 0 || populated_slot_valid slot) && each_slot_valid rest

-- Every check answers ESP_ERR_INVALID_STATE.
unfoldable pub validate_cookie_keyring : Keyring → Status
validate_cookie_keyring ring =
    if not (each_slot_valid (slots ring))
    then err invalid_state
    else if not (populated_slot_valid ring.active)
    then err invalid_state
    else if not (populated_slot_valid ring.next)
    then err invalid_state
    else if not (key_ids_distinct ring)
    then err invalid_state
    else if not (ring.next.not_before_ntp == ring.active.not_after_ntp)
    then err invalid_state
    else if leb ring.next.not_after_ntp ring.next.not_before_ntp
    then err invalid_state
    else if not (ring.previous.valid == 0)
        && not (ring.previous.not_after_ntp == ring.active.not_before_ntp)
    then err invalid_state
    else esp_ok

unfoldable pub next_key_id : ℕ → ℕ
next_key_id current_key_id =
    let result = u32 (current_key_id + 1) in if result == 0 then 1 else result

unfoldable pub generate_next_slot : List ℕ → ℕ → ℕ → CookieKey
generate_next_slot random_key key_id not_before_ntp = record {
  key_id = key_id;
  not_before_ntp = not_before_ntp;
  not_after_ntp = u64 (not_before_ntp + key_period_seconds);
  key = random_key;
  valid = 1;
}

-- One round of the loop of `nts_storage_maintain_cookie_keyring`.
unfoldable pub rotate_once : List ℕ → Keyring → Keyring
rotate_once random_key ring = record {
  previous = ring.active;
  active = ring.next;
  next = generate_next_slot random_key (next_key_id ring.next.key_id) ring.next.not_after_ntp;
}

-- The loop, with fuel: the ring and `changed`, or nothing once the fuel has run out. `round`
-- counts the blocks of random bytes that are used up.
unfoldable pub rotate : ℕ → (ℕ → List ℕ) → ℕ → ℕ → Keyring → Option (Keyring × Bool)
rotate zero random round now_ntp ring = none
rotate (suc fuel) random round now_ntp ring =
    let further = rotate fuel random (round + 1) now_ntp (rotate_once (random round) ring) in
    if leb ring.active.not_after_ntp now_ntp
    then elim further [ none ↦ none | some (r, _) ↦ some (r, true) ]
    else some (ring, false)

-- An unused slot, as `memset` leaves it.
abbrev pub empty_slot : CookieKey
empty_slot = record { key_id = 0; not_before_ntp = 0; not_after_ntp = 0; key = zeros 32; valid = 0 }

-- The ring that `nts_storage_ensure_cookie_keyring` starts with.
unfoldable pub first_ring : (ℕ → List ℕ) → ℕ → Keyring
first_ring random now_ntp =
    let active = generate_next_slot (random 0) 1 now_ntp in
    record {
      previous = empty_slot;
      active = active;
      next = generate_next_slot (random 1) 2 active.not_after_ntp;
    }

-- What `nvs_get_blob` answers for the ring: a ring, a blob of another length, or a code.
pub data Blob : Type 0 where
  ring : Keyring → Blob
  other_length : Blob
  failed : EspErr → Blob

-- What the file calls of NVS, of FreeRTOS and of acme_storage.c for the initialization.
pub record Nvs : Type 1 where
  pub Store : Type 0
  pub create_mutex : Bool
  pub acme_storage_init : Store → Status × Store
  pub open_readonly : Store → Status
  pub open_readwrite : Store → Status
  pub get_blob : Store → Blob
  pub set_blob : Keyring → Store → Status × Store
  pub commit : Store → Status × Store

module _ (nvs : Nvs) where
  open nvs use {
    Store, create_mutex, acme_storage_init, open_readonly, open_readwrite, get_blob, set_blob,
    commit,
  }

  -- The two static variables and the contents of the partition.
  pub record Memory : Type 0 where
    pub locked : Bool
    pub initialized : Bool
    pub store : Store

  unfoldable pub init_locked : Memory → Status × Memory
  init_locked m =
      if m.initialized
      then (esp_ok, m)
      else let (s, store) = acme_storage_init m.store in
        let m' : Memory = record m { store = store } in
        elim s [
          | err e ↦ (err e, m')
          | ok _ ↦ elim (open_readwrite store) [
            | err e ↦ (err e, m')
            | ok _ ↦ (esp_ok, record m' { initialized = true })
          ]
        ]

  -- `nts_storage_init`, with `ensure_lock`.
  unfoldable pub init : Memory → Status × Memory
  init m =
      if m.locked || create_mutex then init_locked (record m { locked = true }) else (err no_mem, m)

  -- What `nts_storage_load_cookie_keyring` makes of the blob.
  unfoldable pub blob_result : Blob → Result Keyring
  blob_result (ring r) = ok r
  blob_result other_length = err invalid_size
  blob_result (failed nvs_not_found) = err not_found
  blob_result (failed e) = err e

  unfoldable pub load_cookie_keyring : Memory → Result Keyring × Memory
  load_cookie_keyring m =
      let (s, m') = init m in
      elim s [
        | err e ↦ (err e, m')
        | ok _ ↦ elim (open_readonly m'.store) [
          | err e ↦ (err e, m')
          | ok _ ↦ (blob_result (get_blob m'.store), m')
        ]
      ]

  unfoldable pub save_cookie_keyring : Keyring → Memory → Status × Memory
  save_cookie_keyring r m =
      let (s, m') = init m in
      elim s [
        | err e ↦ (err e, m')
        | ok _ ↦ elim (open_readwrite m'.store) [
          | err e ↦ (err e, m')
          | ok _ ↦
              let (set, stored) = set_blob r m'.store in
              let (committed, final) = commit stored in
              elim set [
                | err e ↦ (err e, record m' { store = stored })
                | ok _ ↦ (committed, record m' { store = final })
              ]
        ]
      ]

  unfoldable pub ensure_cookie_keyring : (ℕ → List ℕ) → Option ℕ → Memory → Status × Memory
  ensure_cookie_keyring random clock m =
      let (loaded, m') = load_cookie_keyring m in
      elim loaded [
        | ok r ↦ (validate_cookie_keyring r, m')
        | err not_found ↦ elim clock [
          | none ↦ (err invalid_state, m')
          | some now ↦ save_cookie_keyring (first_ring random now) m'
        ]
        | err e ↦ (err e, m')
      ]

  -- Behind a valid ring and a known time: the loop, and the save if anything changed. The fuel
  -- `now + 1` is enough (`Rotation.rotate_total`).
  unfoldable pub rotate_and_save : (ℕ → List ℕ) → ℕ → Keyring → Memory → Status × Memory
  rotate_and_save random now r m = elim (rotate (suc now) random 0 now r) [
    | none ↦ (err invalid_state, m)
    | some (r', true) ↦ save_cookie_keyring r' m
    | some (r', false) ↦ (esp_ok, m)
  ]

  unfoldable pub maintain_cookie_keyring : (ℕ → List ℕ) → Option ℕ → Memory → Status × Memory
  maintain_cookie_keyring random clock m =
      let (loaded, m') = load_cookie_keyring m in
      elim loaded [
        | err e ↦ (err e, m')
        | ok r ↦ elim (validate_cookie_keyring r) [
          | err e ↦ (err e, m')
          | ok _ ↦ elim clock [
            | none ↦ (err invalid_state, m')
            | some now ↦ rotate_and_save random now r m'
          ]
        ]
      ]
