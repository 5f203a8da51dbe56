-- ===== src/Nts/Keyring/Valid.antt =====
-- The ring that `validate_cookie_keyring` accepts.
use esp32p4_nts_time_server.Base.{
  ◌<◌, ◌≡◌, ◌≢◌, ◌↔◌, ◌⊎◌, inl, inr, true, arith, err, esp_ok, invalid_state,
}
use esp32p4_nts_time_server.Nts.Keyring.{
  CookieKey, Keyring, slots, slot_valid_value, populated_slot_valid, id_absent, ids_distinct,
  key_ids_distinct, each_slot_valid, validate_cookie_keyring,
}

-- A slot that holds a key: its flag is 1, its id is not 0, and its time is not empty.
pub record IsPopulated (slot : CookieKey) : Type 0 where
  pub flag : slot.valid ≡ 1
  pub named : slot.key_id ≢ 0
  pub lasts : slot.not_before_ntp < slot.not_after_ntp

-- What a slot in front of the active one may be: unused, or a key of another id that ended as
-- the active one began.
abbrev pub Precedes : CookieKey → Keyring → Type 0
Precedes slot ring =
    (slot.valid ≡ 0)
    ⊎ (IsPopulated slot
        × (slot.not_after_ntp ≡ ring.active.not_before_ntp)
        × (slot.key_id ≢ ring.active.key_id)
        × (slot.key_id ≢ ring.next.key_id))

-- A ring of keys: the active and the next one are there, follow each other without a gap and
-- have different ids, and so does the previous one, where it is there.
pub record IsRing (ring : Keyring) : Type 0 where
  pub active_there : IsPopulated ring.active
  pub next_there : IsPopulated ring.next
  pub follows : ring.next.not_before_ntp ≡ ring.active.not_after_ntp
  pub distinct : ring.active.key_id ≢ ring.next.key_id
  pub precedes : Precedes ring.previous ring

populated_slot_valid_iff :
    (slot : CookieKey) → (populated_slot_valid slot ≡ true) ↔ IsPopulated slot
unfolding populated_slot_valid
populated_slot_valid_iff slot = (
  λ e. record { flag = ground arith; named = ground arith; lasts = ground arith },
  λ p. ground (arith, p.flag, p.named, p.lasts),
)

each_slot_all :
    (r : Keyring)
    → each_slot_valid (slots r) ≡ true
    → (r.previous.valid ≡ 0) ⊎ (populated_slot_valid r.previous ≡ true)
unfolding each_slot_valid slot_valid_value
each_slot_all r e = ground arith

distinct_all :
    (r : Keyring)
    → key_ids_distinct r ≡ true
    → r.active.valid ≡ 1
    → r.next.valid ≡ 1
    → (r.active.key_id ≢ r.next.key_id)
      × ((r.previous.valid ≡ 0)
          ⊎ ((r.previous.key_id ≢ r.active.key_id) × (r.previous.key_id ≢ r.next.key_id)))
unfolding key_ids_distinct ids_distinct id_absent
distinct_all r e a n = (ground arith, ground arith)

-- What the chain of tests of `validate_cookie_keyring` has established at its end.
record Passed (r : Keyring) : Type 0 where
  each : each_slot_valid (slots r) ≡ true
  active : populated_slot_valid r.active ≡ true
  next : populated_slot_valid r.next ≡ true
  ids : key_ids_distinct r ≡ true
  meets : r.next.not_before_ntp ≡ r.active.not_after_ntp
  met : (r.previous.valid ≡ 0) ⊎ (r.previous.not_after_ntp ≡ r.active.not_before_ntp)

passed : (r : Keyring) → validate_cookie_keyring r ≡ esp_ok → Passed r
unfolding validate_cookie_keyring
passed r e = record {
  each = ground arith;
  active = ground arith;
  next = ground arith;
  ids = ground arith;
  meets = ground arith;
  met = ground arith;
}

Passed-ok :
    (r : Keyring)
    → Passed r
    → r.next.not_before_ntp < r.next.not_after_ntp
    → validate_cookie_keyring r ≡ esp_ok
unfolding validate_cookie_keyring
Passed-ok r p l = ground (arith, p.each, p.active, p.next, p.ids, p.meets, p.met)

Passed-IsRing : (r : Keyring) → Passed r → IsRing r
Passed-IsRing r p =
    let a = (populated_slot_valid_iff r.active).0 p.active in
    let n = (populated_slot_valid_iff r.next).0 p.next in
    let d = distinct_all r p.ids a.flag n.flag in
    record {
      active_there = a;
      next_there = n;
      follows = p.meets;
      distinct = d.0;
      precedes = elim p.met [
        | inl unused ↦ inl unused
        | inr ends ↦ elim d.1 [
          | inl unused ↦ inl unused
          | inr (x, y) ↦ elim (each_slot_all r p.each) [
            | inl unused ↦ inl unused
            | inr there ↦ inr ((populated_slot_valid_iff r.previous).0 there, ends, x, y)
          ]
        ]
      ];
    }

each_slot_back :
    (r : Keyring)
    → populated_slot_valid r.active ≡ true
    → populated_slot_valid r.next ≡ true
    → r.active.valid ≡ 1
    → r.next.valid ≡ 1
    → (r.previous.valid ≡ 0) ⊎ ((r.previous.valid ≡ 1) × (populated_slot_valid r.previous ≡ true))
    → each_slot_valid (slots r) ≡ true
unfolding each_slot_valid slot_valid_value
each_slot_back r a n fa fn p = ground arith

distinct_back :
    (r : Keyring)
    → r.active.key_id ≢ r.next.key_id
    → (r.previous.valid ≡ 0)
      ⊎ ((r.previous.key_id ≢ r.active.key_id) × (r.previous.key_id ≢ r.next.key_id))
    → key_ids_distinct r ≡ true
unfolding key_ids_distinct ids_distinct id_absent
distinct_back r d p = ground arith

IsRing-Passed : (r : Keyring) → IsRing r → Passed r
IsRing-Passed r v =
    let a = (populated_slot_valid_iff r.active).1 v.active_there in
    let n = (populated_slot_valid_iff r.next).1 v.next_there in
    record {
      each = each_slot_back r a n v.active_there.flag v.next_there.flag (elim v.precedes [
        | inl unused ↦ inl unused
        | inr (p, _, _, _) ↦ inr (p.flag, (populated_slot_valid_iff r.previous).1 p)
      ]);
      active = a;
      next = n;
      ids =
          distinct_back r v.distinct
            (elim v.precedes [ inl unused ↦ inl unused | inr (_, _, x, y) ↦ inr (x, y) ]);
      meets = v.follows;
      met = elim v.precedes [ inl unused ↦ inl unused | inr (_, ends, _, _) ↦ inr ends ];
    }

-- `validate_cookie_keyring` accepts exactly the rings of keys: the active and the next key are
-- there and follow each other, and the previous one is unused or precedes them, with three
-- different ids.
pub validate_cookie_keyring_iff : (r : Keyring) → (validate_cookie_keyring r ≡ esp_ok) ↔ IsRing r
validate_cookie_keyring_iff r =
    (λ e. Passed-IsRing r (passed r e), λ v. Passed-ok r (IsRing-Passed r v) v.next_there.lasts)

pub validate_cookie_keyring_cases :
    (r : Keyring)
    → (validate_cookie_keyring r ≡ esp_ok) ⊎ (validate_cookie_keyring r ≡ err invalid_state)
unfolding validate_cookie_keyring
validate_cookie_keyring_cases r = ground arith
