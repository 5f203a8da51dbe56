-- ===== src/Nts/Cookie/Life.antt =====
-- A cookie and the ring of master keys over time.
use esp32p4_nts_time_server.Base.{
  ℕ, suc, ◌+◌, ◌^◌, ◌<◌, ◌≤◌, ◌≡◌, refl, ap, ◌∙◌, inl, inr, List, ◌++◌, Option, some, length, take,
  drop, Status, ok, Result, esp_ok, arith, take_prefix, Bool,
}
use esp32p4_nts_time_server.Base.Bytes.{read_be32, read_be32-bytes}
use esp32p4_nts_time_server.Nts.AesSiv.{Psa}
use esp32p4_nts_time_server.Nts.AesSiv.Works as Siv
use esp32p4_nts_time_server.Nts.Keyring.{
  CookieKey, Keyring, Nvs, Memory, ring, key_period_seconds, rotate, rotate_once,
  maintain_cookie_keyring, load_cookie_keyring, blob_result,
}
use esp32p4_nts_time_server.Nts.Keyring.Valid.{IsRing}
use esp32p4_nts_time_server.Nts.Keyring.Rotation.{IsKept, rotate_near}
use esp32p4_nts_time_server.Nts.Keyring.Storage as Store
use esp32p4_nts_time_server.Nts.Keyring.Storage.{maintain-IsKept, load-Leaves}
use esp32p4_nts_time_server.Nts.Cookie.{
  CookieKeys, Draws, find_in, find_cookie_master_key, get_active_cookie_master_key, seal_cookie,
  open_cookie, current_keyring, create, unpack, generate_keys,
}
use esp32p4_nts_time_server.Nts.Cookie.Wire.{Fits}
use esp32p4_nts_time_server.Nts.Cookie.Trip.{
  Cmac, Stream, body, wire, wire-length, sealed_at, opened_at,
}

find_active : (r : Keyring) → IsRing r → find_cookie_master_key r r.active.key_id ≡ some r.active
unfolding find_cookie_master_key find_in
find_active r v = ground (arith, v.precedes, v.active_there.flag)

find_previous :
    (key : List ℕ) (r : Keyring)
    → IsRing r
    → find_cookie_master_key (rotate_once key r) r.active.key_id ≡ some r.active
unfolding find_cookie_master_key find_in rotate_once
find_previous key r v = ground (arith, v.active_there.flag)

module _ (nvs : Nvs) (works : Store.Works nvs) where
  current_loaded :
      (random : ℕ → List ℕ) (clock : Option ℕ) (m m' : Memory nvs)
      (loaded : Result Keyring × Memory nvs)
      → maintain_cookie_keyring nvs random clock m ≡ (esp_ok, m')
      → load_cookie_keyring nvs m' ≡ loaded
      → current_keyring nvs random clock m ≡ loaded
  unfolding current_keyring
  current_loaded random clock m m' loaded h e = ground (arith, e)

  -- The ring that each call works with, where the store holds a ring that is kept.
  current_rotated :
      (random : ℕ → List ℕ) (now : ℕ) (m : Memory nvs) (r : Keyring)
      → nvs.get_blob m.store ≡ ring r
      → IsKept r
      → now < 2 ^ 32
      → (after : Keyring) × (changed : Bool) × (m' : Memory nvs) × (rotate (suc now) random 0 now r
          ≡ some (after, changed))
        × (current_keyring nvs random (some now) m ≡ (ok after, m'))
        × (nvs.get_blob m'.store ≡ ring after)
        × IsKept after
        × (now < after.active.not_after_ntp)
  unfolding blob_result
  current_rotated random now m r h k small =
      let (after, c, e, s, kept, fresh) =
        maintain-IsKept nvs works random now m r h k (omega arith) in
      let kept_memory = (maintain_cookie_keyring nvs random (some now) m).1 in
      let (m', le, lb) = load-Leaves nvs works kept_memory in
      let maintained : maintain_cookie_keyring nvs random (some now) m ≡ (esp_ok, kept_memory) =
        ap (λ (q : Status). (q, kept_memory)) s.0 in
      let read : blob_result nvs (nvs.get_blob kept_memory.store) ≡ ok after = rw s.1 refl in
      let loaded : load_cookie_keyring nvs kept_memory ≡ (ok after, m') =
        le ∙ ap (λ (q : Result Keyring). (q, m')) read in
      (
        after,
        c,
        m',
        e,
        current_loaded random (some now) m kept_memory (ok after, m') maintained loaded,
        lb ∙ s.1,
        kept,
        fresh,
      )

create_steps :
    (nvs : Nvs) (psa : Psa) (random : ℕ → List ℕ) (n : List ℕ) (clock : Option ℕ)
    (keys : CookieKeys) (cookie : List ℕ) (cookie_len : ℕ) (m m' : Memory nvs) (r : Keyring)
    (output : List ℕ)
    → current_keyring nvs random clock m ≡ (ok r, m')
    → r.active.valid ≡ 1
    → 128 ≤ cookie_len
    → seal_cookie psa r.active n keys cookie cookie_len ≡ (esp_ok, output, 128)
    → create nvs psa random n clock keys cookie cookie_len m
      ≡ record { status = esp_ok; cookie = output; cookie_len = 128; memory = m' }
unfolding create get_active_cookie_master_key
create_steps nvs psa random n clock keys cookie cookie_len m m' r output h v l e = ground (arith, e)

unpack_steps :
    (nvs : Nvs) (psa : Psa) (random : ℕ → List ℕ) (clock clock' : Option ℕ) (cookie : List ℕ)
    (old keys : CookieKeys) (m m' : Memory nvs) (r : Keyring) (master : CookieKey)
    → length cookie ≡ 128
    → current_keyring nvs random clock m ≡ (ok r, m')
    → find_cookie_master_key r (read_be32 cookie) ≡ some master
    → open_cookie psa master clock' cookie old ≡ (esp_ok, keys)
    → unpack nvs psa random clock clock' cookie old m
      ≡ record { status = esp_ok; keys = keys; memory = m' }
unfolding unpack
unpack_steps nvs psa random clock clock' cookie old keys m m' r master l h f e = ground (arith, e)

generate_steps :
    (nvs : Nvs) (random : ℕ → List ℕ) (c2s s2c : List ℕ) (clock : Option ℕ) (now lifetime : ℕ)
    (old : CookieKeys) (m m' : Memory nvs) (r : Keyring)
    → current_keyring nvs random clock m ≡ (ok r, m')
    → r.active.valid ≡ 1
    → 0 < lifetime
    → now + lifetime < 2 ^ 64
    → generate_keys nvs random c2s s2c clock (some now) lifetime old m ≡ record {
      status = esp_ok;
      keys = record {
        c2s_key = c2s;
        s2c_key = s2c;
        master_key_id = r.active.key_id;
        issued_ntp_seconds = now;
        expires_ntp_seconds = now + lifetime;
      };
      memory = m';
    }
unfolding generate_keys get_active_cookie_master_key
generate_steps nvs random c2s s2c clock now lifetime old m m' r h v l b = ground (arith, h, v)

-- While the store works and holds a ring that is kept, `nts_cookie_generate_keys` succeeds, and
-- gives keys that fit, made of the two random blocks, that live for `lifetime` seconds from now
-- and name the active key of the ring that it leaves.
pub generate_keys-Fits :
    (nvs : Nvs)
    → Store.Works nvs
    → (random : ℕ → List ℕ) (c2s s2c : List ℕ) (t0 now lifetime : ℕ) (old : CookieKeys)
      (m : Memory nvs) (r : Keyring)
    → nvs.get_blob m.store ≡ ring r
    → IsKept r
    → t0 < 2 ^ 32
    → now + lifetime < 2 ^ 64
    → 0 < lifetime
    → length c2s ≡ 32
    → length s2c ≡ 32
    → let g = generate_keys nvs random c2s s2c (some t0) (some now) lifetime old m in
      (g.status ≡ esp_ok)
      × Fits g.keys
      × (g.keys.c2s_key ≡ c2s)
      × (g.keys.s2c_key ≡ s2c)
      × (g.keys.issued_ntp_seconds ≡ now)
      × (g.keys.expires_ntp_seconds ≡ now + lifetime)
      × ((after : Keyring) × (nvs.get_blob g.memory.store ≡ ring after)
          × IsKept after
          × (t0 < after.active.not_after_ntp)
          × (g.keys.master_key_id ≡ after.active.key_id))
generate_keys-Fits nvs works random c2s s2c t0 now lifetime old m r h k small end l hc hs =
    let (after, _, m', _, load, blob, kept, fresh) =
      current_rotated nvs works random t0 m r h k small in
    let g =
      generate_steps nvs random c2s s2c (some t0) now lifetime old m m' after load
        kept.valid.active_there.flag l end in
    rw g (
      refl,
      record { c2s = hc; s2c = hs; issued = omega arith; expires = end },
      refl,
      refl,
      refl,
      refl,
      (after, blob, kept, fresh, refl),
    )

-- Draws of the call: nonces of 16 bytes, and a clock that is known.
pub record Timely (draws : Draws) : Type 0 where
  pub nonces : (i : ℕ) → length (draws.nonce i) ≡ 16
  pub now : ℕ → ℕ
  pub clocks : (i : ℕ) → draws.clock i ≡ some (now i)
  pub small : (i : ℕ) → now i < 2 ^ 32

-- A call of `nts_cookie_create` while the store and the API work: 128 bytes that are sealed under
-- the active key of the ring that is left, and a store that holds a ring that is kept.
pub create-Works :
    (nvs : Nvs) (cm : Cmac) (ks : Stream) (psa : Psa)
    → Store.Works nvs
    → Siv.Works psa cm ks
    → (random : ℕ → List ℕ) (n : List ℕ) (keys : CookieKeys) (cookie : List ℕ) (cookie_len now : ℕ)
      (m : Memory nvs) (r : Keyring)
    → nvs.get_blob m.store ≡ ring r
    → IsKept r
    → length n ≡ 16
    → Fits keys
    → 128 ≤ cookie_len
    → now < 2 ^ 32
    → (packet : List ℕ) × (tail : List ℕ) × (m' : Memory nvs) × (after : Keyring) × (create nvs psa
          random n
          (some now)
          keys
          cookie
          cookie_len
          m
        ≡ record { status = esp_ok; cookie = packet ++ tail; cookie_len = 128; memory = m' })
      × (length packet ≡ 128)
      × (packet ≡ wire cm ks after.active n keys)
      × (nvs.get_blob m'.store ≡ ring after)
      × IsKept after
create-Works nvs cm ks psa works w random n keys cookie cookie_len now m r h k n16 f room small =
    let (after, _, m', _, load, blob, kept, _) =
      current_rotated nvs works random now m r h k small in
    let packet = wire cm ks after.active n keys in
    let tail = drop (length (body cm ks after.active n keys)) (drop 20 cookie) in
    let made =
      create_steps nvs psa random n (some now) keys cookie cookie_len m m' after (packet ++ tail)
        load kept.valid.active_there.flag room
        (sealed_at cm ks after.active n keys psa w f n16 cookie cookie_len) in
    let long = wire-length cm ks after.active n keys psa w f n16 in
    (packet, tail, m', after, made, long, refl, blob, kept)

-- While the store works, and the API works over the same CMAC and cipher in both calls: a cookie
-- that is created at `t0` for keys that fit is opened at any time `t1` up to 30 days later, as
-- long as the clock, at `t2`, stands in the life of the keys. Both calls succeed, the cookie has
-- 128 bytes, and the keys come back with the id of a master key in place of the one they had.
pub unpack-create :
    (nvs : Nvs) (cm : Cmac) (ks : Stream) (psa psa' : Psa)
    → Store.Works nvs
    → Siv.Works psa cm ks
    → Siv.Works psa' cm ks
    → (random random' : ℕ → List ℕ) (n : List ℕ) (keys old : CookieKeys) (cookie : List ℕ)
      (cookie_len t0 t1 t2 : ℕ) (m : Memory nvs) (r : Keyring)
    → nvs.get_blob m.store ≡ ring r
    → IsKept r
    → length n ≡ 16
    → Fits keys
    → 128 ≤ cookie_len
    → t1 < 2 ^ 32
    → t0 ≤ t1
    → t1 ≤ t0 + key_period_seconds
    → keys.issued_ntp_seconds ≤ t2
    → t2 < keys.expires_ntp_seconds
    → let c = create nvs psa random n (some t0) keys cookie cookie_len m in
      let u =
        unpack nvs psa' random' (some t1) (some t2) (take c.cookie_len c.cookie) old c.memory in
      (c.status ≡ esp_ok)
      × (c.cookie_len ≡ 128)
      × (u.status ≡ esp_ok)
      × ((id : ℕ) × (u.keys ≡ record keys { master_key_id = id }))
unpack-create nvs cm ks psa psa' works w w' random random' n keys old cookie cookie_len t0 t1 t2 m r
      h k n16 f room small later soon born alive =
    let (r1, _, m1, _, load1, blob1, k1, fresh1) =
      current_rotated nvs works random t0 m r h k (omega arith) in
    let (r2, c2, m2, e2, load2, _, _, _) =
      current_rotated nvs works random' t1 m1 r1 blob1 k1 small in
    let packet = wire cm ks r1.active n keys in
    let tail = drop (length (body cm ks r1.active n keys)) (drop 20 cookie) in
    let made =
      create_steps nvs psa random n (some t0) keys cookie cookie_len m m1 r1 (packet ++ tail) load1
        k1.valid.active_there.flag room
        (sealed_at cm ks r1.active n keys psa w f n16 cookie cookie_len) in
    let long = wire-length cm ks r1.active n keys psa w f n16 in
    let sent : take 128 (packet ++ tail) ≡ packet = take_prefix 128 packet tail long in
    let found : find_cookie_master_key r2 r1.active.key_id ≡ some r1.active =
      elim (rotate_near random' t1 r1 r2 c2 k1 (omega arith) e2) [
        | inl same ↦ rw same (find_active r1 k1.valid)
        | inr turned ↦ rw turned (find_previous (random' 0) r1 k1.valid)
      ] in
    let id : read_be32 packet ≡ r1.active.key_id =
      read_be32-bytes r1.active.key_id (n ++ body cm ks r1.active n keys) k1.fits in
    let opened =
      unpack_steps nvs psa' random' (some t1) (some t2) packet old
        (record keys { master_key_id = r1.active.key_id }) m1 m2 r2 r1.active long load2
        (rw id found) (opened_at cm ks r1.active n keys psa' w' f n16 t2 old k1.fits born alive) in
    rw (made, sent, opened) (refl, refl, refl, (r1.active.key_id, refl))
