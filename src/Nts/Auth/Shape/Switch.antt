-- ===== src/Nts/Auth/Shape/Switch.antt =====
-- What one field in front of the authenticator adds to what the loop has seen.
use mathlib.Core.Path.{subst}
use esp32p4_nts_time_server.Base.{
  ℕ, ◌≤◌, ◌≡◌, sym, ap, ◌∙◌, inl, inr, List, [], ◌∷◌, ◌++◌, Option, none, some, length, ok, arith,
  true, false, Bool-cases, ◌==◌, if◌then◌else◌,
}
use esp32p4_nts_time_server.Nts.Auth.{Seen, switch_field}
use esp32p4_nts_time_server.Nts.Auth.Fields.{Field}
use esp32p4_nts_time_server.Nts.Auth.Shape.{listed, Sized}

abbrev pub only : ℕ → Field → List (List ℕ)
only t f = if f.0 == t then f.1 ∷ [] else []

-- What a field in front of the authenticator adds to what has been seen.
pub record Adds (offset : ℕ) (f : Field) (seen next : Seen) : Type 0 where
  pub uid : listed next.uid ≡ listed seen.uid ++ only 0x0104 f
  pub cookie : listed next.cookie ≡ listed seen.cookie ++ only 0x0204 f
  pub uid_sized : Sized 32 256 seen.uid → Sized 32 256 next.uid
  pub cookie_sized : Sized 1 256 seen.cookie → Sized 1 256 next.cookie
  pub auth : next.auth ≡ (if f.0 == 0x0404 then some (offset, f.1) else none)

switch_field-uid :
    (f : Field) (offset : ℕ) (seen next : Seen)
    → f.0 ≡ 0x0104
    → switch_field f.0 f.1 offset seen ≡ ok next
    → (seen.uid ≡ none)
      × (next ≡ record seen { uid = some f.1 })
      × (32 ≤ length f.1)
      × (length f.1 ≤ 256)
unfolding switch_field
switch_field-uid f offset seen next t h =
    (ground (arith, t, h), ground (arith, t, h), ground (arith, t, h), ground (arith, t, h))

switch_field-cookie :
    (f : Field) (offset : ℕ) (seen next : Seen)
    → f.0 ≡ 0x0204
    → switch_field f.0 f.1 offset seen ≡ ok next
    → (seen.cookie ≡ none)
      × (next ≡ record seen { cookie = some f.1 })
      × (1 ≤ length f.1)
      × (length f.1 ≤ 256)
unfolding switch_field
switch_field-cookie f offset seen next t h =
    (ground (arith, t, h), ground (arith, t, h), ground (arith, t, h), ground (arith, t, h))

switch_field-auth :
    (f : Field) (offset : ℕ) (seen next : Seen)
    → f.0 ≡ 0x0404
    → switch_field f.0 f.1 offset seen ≡ ok next
    → next ≡ record seen { auth = some (offset, f.1) }
unfolding switch_field
switch_field-auth f offset seen next t h = ground (arith, t, h)

switch_field-other :
    (f : Field) (offset : ℕ) (seen next : Seen)
    → (f.0 == 0x0104) ≡ false
    → (f.0 == 0x0204) ≡ false
    → (f.0 == 0x0404) ≡ false
    → switch_field f.0 f.1 offset seen ≡ ok next
    → (next.uid ≡ seen.uid) × (next.cookie ≡ seen.cookie) × (next.auth ≡ seen.auth)
unfolding switch_field
switch_field-other f offset seen next a b c h =
    (ground (arith, a, b, c, h), ground (arith, a, b, c, h), ground (arith, a, b, c, h))

listed-only :
    (o : Option (List ℕ)) (t : ℕ) (f : Field) → (f.0 == t) ≡ false → listed o ≡ listed o ++ only t f
listed-only none t f h = ground (arith, h)
listed-only (some body) t f h = ground (arith, h)

listed_first :
    (o : Option (List ℕ)) (t : ℕ) (f : Field)
    → o ≡ none
    → (f.0 == t) ≡ true
    → f.1 ∷ [] ≡ listed o ++ only t f
listed_first none t f free h = ground (arith, h)
listed_first (some body) t f free h = absurd (ground (arith, free))

-- A field of another type than the two leaves what has been seen of them.
kept_Adds :
    (f : Field) (offset : ℕ) (seen next : Seen)
    → (f.0 == 0x0104) ≡ false
    → (f.0 == 0x0204) ≡ false
    → next.uid ≡ seen.uid
    → next.cookie ≡ seen.cookie
    → next.auth ≡ (if f.0 == 0x0404 then some (offset, f.1) else none)
    → Adds offset f seen next
kept_Adds f offset seen next a b u c auth = record {
  uid = ap listed u ∙ listed-only seen.uid 0x0104 f a;
  cookie = ap listed c ∙ listed-only seen.cookie 0x0204 f b;
  uid_sized = subst (Sized 32 256) (sym u);
  cookie_sized = subst (Sized 1 256) (sym c);
  auth = auth;
}

pub switch_field-Adds :
    (f : Field) (offset : ℕ) (seen next : Seen)
    → seen.auth ≡ none
    → switch_field f.0 f.1 offset seen ≡ ok next
    → Adds offset f seen next
switch_field-Adds f offset seen next free h = elim (Bool-cases (f.0 == 0x0104)) [
  | inl a ↦
      let (none_yet, e, least, most) = switch_field-uid f offset seen next (ground (arith, a)) h in
      added_uid none_yet e least most a
  | inr a ↦ elim (Bool-cases (f.0 == 0x0204)) [
    | inl b ↦
        let (none_yet, e, least, most) =
          switch_field-cookie f offset seen next (ground (arith, b)) h in
        added_cookie none_yet e least most b
    | inr b ↦ elim (Bool-cases (f.0 == 0x0404)) [
      | inl c ↦
          let e = switch_field-auth f offset seen next (ground (arith, c)) h in
          kept_Adds f offset seen next a b (ground (arith, e)) (ground (arith, e))
            (ground (arith, e, c))
      | inr c ↦
          let (uid, cookie, auth) = switch_field-other f offset seen next a b c h in
          kept_Adds f offset seen next a b uid cookie (ground (arith, auth, free, c))
    ]
  ]
]
  where
    added_uid :
        seen.uid ≡ none
        → next ≡ record seen { uid = some f.1 }
        → 32 ≤ length f.1
        → length f.1 ≤ 256
        → (f.0 == 0x0104) ≡ true
        → Adds offset f seen next
    added_uid none_yet e least most a = rw e (record {
      uid = listed_first seen.uid 0x0104 f none_yet a;
      cookie = listed-only seen.cookie 0x0204 f (ground (arith, a));
      uid_sized = λ s. (least, most);
      cookie_sized = λ s. s;
      auth = ground (arith, a, free);
    })

    added_cookie :
        seen.cookie ≡ none
        → next ≡ record seen { cookie = some f.1 }
        → 1 ≤ length f.1
        → length f.1 ≤ 256
        → (f.0 == 0x0204) ≡ true
        → Adds offset f seen next
    added_cookie none_yet e least most a = rw e (record {
      uid = listed-only seen.uid 0x0104 f (ground (arith, a));
      cookie = listed_first seen.cookie 0x0204 f none_yet a;
      uid_sized = λ s. s;
      cookie_sized = λ s. (least, most);
      auth = ground (arith, a, free);
    })
