-- ===== src/Nts/Keyring/Storage.antt =====
-- The ring in the encrypted partition, where NVS does what its documentation says.
use esp32p4_nts_time_server.Base.{
  ℕ, suc, ◌+◌, ◌*◌, ◌<◌, ◌≡◌, refl, sym, ◌∙◌, ap, ap₂, ◌⊎◌, inl, inr, List, Bool, true, false,
  Option, none, some, arith, ◌^◌, Bool-cases, ok, err, Status, esp_ok, invalid_state, nvs_not_found,
}
use esp32p4_nts_time_server.Nts.Keyring.{
  Keyring, key_period_seconds, rotate, first_ring, Blob, ring, failed, Nvs, Memory, init_locked,
  init, blob_result, load_cookie_keyring, save_cookie_keyring, ensure_cookie_keyring,
  rotate_and_save, maintain_cookie_keyring, validate_cookie_keyring,
}
use esp32p4_nts_time_server.Nts.Keyring.Valid.{
  IsRing, validate_cookie_keyring_iff, validate_cookie_keyring_cases,
}
use esp32p4_nts_time_server.Nts.Keyring.Rotation.{IsKept, rotate_total, first_ring-IsKept}

-- A partition that works: it opens, opening changes no blob, what is set is what is got, and a
-- commit changes no blob.
pub record Works (nvs : Nvs) : Type 0 where
  pub mutex : nvs.create_mutex ≡ true
  pub starts :
      (s : nvs.Store)
      → ((nvs.acme_storage_init s).0 ≡ esp_ok)
        × (nvs.get_blob (nvs.acme_storage_init s).1 ≡ nvs.get_blob s)
  pub reads : (s : nvs.Store) → nvs.open_readonly s ≡ esp_ok
  pub writes : (s : nvs.Store) → nvs.open_readwrite s ≡ esp_ok
  pub sets :
      (r : Keyring) (s : nvs.Store)
      → ((nvs.set_blob r s).0 ≡ esp_ok) × (nvs.get_blob (nvs.set_blob r s).1 ≡ ring r)
  pub commits :
      (s : nvs.Store)
      → ((nvs.commit s).0 ≡ esp_ok) × (nvs.get_blob (nvs.commit s).1 ≡ nvs.get_blob s)

module _ (nvs : Nvs) (works : Works nvs) where
  -- The call succeeds, and the blob is `b` behind it.
  abbrev pub Leaves : Status × Memory nvs → Blob → Type 0
  Leaves r b = (r.0 ≡ esp_ok) × (nvs.get_blob r.1.store ≡ b)

  init_locked-Leaves : (m : Memory nvs) → Leaves (init_locked nvs m) (nvs.get_blob m.store)
  unfolding init_locked
  init_locked-Leaves m = elim (Bool-cases m.initialized) [
    | inl started ↦ rw started (refl, refl)
    | inr idle ↦
        let s = works.starts m.store in
        rw (idle, s.0, works.writes (nvs.acme_storage_init m.store).1) (refl, s.1)
  ]

  init_started : (m : Memory nvs) → init nvs m ≡ init_locked nvs (record m { locked = true })
  unfolding init
  init_started m = ground (arith, works.mutex)

  -- A call of `init` succeeds, in a memory with the same blob.
  init-ok :
      (m : Memory nvs)
      → (m' : Memory nvs) × (init nvs m ≡ (esp_ok, m'))
        × (nvs.get_blob m'.store ≡ nvs.get_blob m.store)
  init-ok m =
      let l = init_locked-Leaves (record m { locked = true }) in
      (
        (init_locked nvs (record m { locked = true })).1,
        init_started m ∙ ap₂ (λ a b. (a, b)) l.0 refl,
        l.1,
      )

  pub load-Leaves :
      (m : Memory nvs)
      → (m' : Memory nvs) × (load_cookie_keyring nvs m
          ≡ (blob_result nvs (nvs.get_blob m.store), m'))
        × (nvs.get_blob m'.store ≡ nvs.get_blob m.store)
  unfolding load_cookie_keyring
  load-Leaves m = let (m', e, b) = init-ok m in (m', ground (arith, works.reads m'.store), b)

  save-Leaves : (r : Keyring) (m : Memory nvs) → Leaves (save_cookie_keyring nvs r m) (ring r)
  unfolding save_cookie_keyring
  save-Leaves r m =
      let (m', e, b) = init-ok m in
      let s = works.sets r m'.store in
      let c = works.commits (nvs.set_blob r m'.store).1 in
      ground (arith, works.writes m'.store, s, c)

  -- What is saved is what is loaded next, whatever was there before.
  pub load-save :
      (r : Keyring) (m : Memory nvs)
      → (load_cookie_keyring nvs (save_cookie_keyring nvs r m).1).0 ≡ ok r
  unfolding blob_result
  load-save r m =
      let (m', e, _) = load-Leaves (save_cookie_keyring nvs r m).1 in
      ap (λ p. p.0) e ∙ ap (blob_result nvs) (save-Leaves r m).1

  ensure_absent :
      (random : ℕ → List ℕ) (now : ℕ) (m : Memory nvs)
      → nvs.get_blob m.store ≡ failed nvs_not_found
      → (m' : Memory nvs) × (ensure_cookie_keyring nvs random (some now) m
          ≡ save_cookie_keyring nvs (first_ring random now) m')
  unfolding ensure_cookie_keyring blob_result
  ensure_absent random now m h = let (m', e, _) = load-Leaves m in (m', ground arith)

  -- On a partition without a ring, `nts_storage_ensure_cookie_keyring` succeeds, and leaves a
  -- ring that is kept and whose active key begins now.
  pub ensure_first :
      (random : ℕ → List ℕ) (now : ℕ) (m : Memory nvs)
      → nvs.get_blob m.store ≡ failed nvs_not_found
      → now + 2 * key_period_seconds < 2 ^ 64
      → (r : Keyring) × Leaves (ensure_cookie_keyring nvs random (some now) m) (ring r)
        × IsKept r
        × (r.active.not_before_ntp ≡ now)
        × (now < r.active.not_after_ntp)
  ensure_first random now m h small =
      let (m', e) = ensure_absent random now m h in
      let (k, begins, lasts) = first_ring-IsKept random now small in
      (first_ring random now, rw e (save-Leaves (first_ring random now) m'), k, begins, lasts)

  maintain_loaded :
      (random : ℕ → List ℕ) (now : ℕ) (m : Memory nvs) (r : Keyring)
      → nvs.get_blob m.store ≡ ring r
      → validate_cookie_keyring r ≡ esp_ok
      → (m' : Memory nvs) × (maintain_cookie_keyring nvs random (some now) m
          ≡ rotate_and_save nvs random now r m')
        × (nvs.get_blob m'.store ≡ ring r)
  unfolding maintain_cookie_keyring blob_result
  maintain_loaded random now m r h v = let (m', e, b) = load-Leaves m in (m', ground arith, b ∙ h)

  -- What rotating leaves: the rotated ring is in the store.
  rotate_and_save-Leaves :
      (random : ℕ → List ℕ) (now : ℕ) (r after : Keyring) (changed : Bool) (m : Memory nvs)
      → nvs.get_blob m.store ≡ ring r
      → rotate (suc now) random 0 now r ≡ some (after, changed)
      → (changed ≡ false → after ≡ r)
      → Leaves (rotate_and_save nvs random now r m) (ring after)
  unfolding rotate_and_save
  rotate_and_save-Leaves random now r after true m h e u =
      let q : rotate_and_save nvs random now r m ≡ save_cookie_keyring nvs after m = ground arith in
      rw q (save-Leaves after m)
  rotate_and_save-Leaves random now r after false m h e u =
      let q : rotate_and_save nvs random now r m ≡ (esp_ok, m) = ground arith in
      rw q (refl, h ∙ ap ring (sym (u refl)))

  -- A maintenance leaves what the loop gives.
  pub maintain_rotates :
      (random : ℕ → List ℕ) (now : ℕ) (m : Memory nvs) (r after : Keyring) (changed : Bool)
      → nvs.get_blob m.store ≡ ring r
      → IsRing r
      → rotate (suc now) random 0 now r ≡ some (after, changed)
      → (changed ≡ false → after ≡ r)
      → Leaves (maintain_cookie_keyring nvs random (some now) m) (ring after)
  maintain_rotates random now m r after changed h v e u =
      let (m', q, b) = maintain_loaded random now m r h ((validate_cookie_keyring_iff r).1 v) in
      rw q (rotate_and_save-Leaves random now r after changed m' b e u)

  -- On a partition with a ring that is kept, `nts_storage_maintain_cookie_keyring` succeeds, and
  -- leaves the ring that the loop gives, which is kept and whose active key has not ended.
  pub maintain-IsKept :
      (random : ℕ → List ℕ) (now : ℕ) (m : Memory nvs) (r : Keyring)
      → nvs.get_blob m.store ≡ ring r
      → IsKept r
      → now + 2 * key_period_seconds < 2 ^ 64
      → (after : Keyring) × (changed : Bool) × (rotate (suc now) random 0 now r
          ≡ some (after, changed))
        × Leaves (maintain_cookie_keyring nvs random (some now) m) (ring after)
        × IsKept after
        × (now < after.active.not_after_ntp)
  maintain-IsKept random now m r h k small =
      let (after, c, e, v) = rotate_total random now r k small in
      (
        after,
        c,
        e,
        maintain_rotates random now m r after c h k.valid e v.unchanged,
        v.kept,
        v.current,
      )

  -- A ring that is not well formed, or an unknown time, stops the maintenance with
  -- ESP_ERR_INVALID_STATE, and leaves the blob as it was.
  pub maintain_refuses :
      (random : ℕ → List ℕ) (clock : Option ℕ) (m : Memory nvs) (r : Keyring)
      → nvs.get_blob m.store ≡ ring r
      → (¬ IsRing r) ⊎ (clock ≡ none)
      → ((maintain_cookie_keyring nvs random clock m).0 ≡ err invalid_state)
        × (nvs.get_blob (maintain_cookie_keyring nvs random clock m).1.store ≡ ring r)
  unfolding maintain_cookie_keyring blob_result
  maintain_refuses random clock m r h bad =
      let (m', e, b) = load-Leaves m in
      let v = validate_cookie_keyring_iff r in ground (arith, v, validate_cookie_keyring_cases r)
