-- ===== src/Nts/Auth/Shape/Gather.antt =====
-- What the loop has seen behind all the fields.
use mathlib.Core.Path.{subst}
use esp32p4_nts_time_server.Base.{
  ℕ, ◌+◌, ◌≡◌, sym, ap, ◌∙◌, inl, inr, List, [], ◌∷◌, ◌++◌, none, some, length, ok, arith, true,
  false, Bool-cases, Result-cases, ◌==◌, append_assoc, append-nil,
}
use esp32p4_nts_time_server.Nts.Auth.{Seen, switch_field, see_field}
use esp32p4_nts_time_server.Nts.Auth.Fields.{Field, see_all}
use esp32p4_nts_time_server.Nts.Auth.Shape.{listed, Sized, front, bodies, first_auth}
use esp32p4_nts_time_server.Nts.Auth.Shape.Switch.{only, Adds, switch_field-Adds}

-- What has been seen behind the fields, the first of which is at `offset`.
pub record Gathers (offset : ℕ) (fs : List Field) (seen last : Seen) : Type 0 where
  pub uid : listed last.uid ≡ listed seen.uid ++ bodies 0x0104 (front fs)
  pub cookie : listed last.cookie ≡ listed seen.cookie ++ bodies 0x0204 (front fs)
  pub uid_sized : Sized 32 256 seen.uid → Sized 32 256 last.uid
  pub cookie_sized : Sized 1 256 seen.cookie → Sized 1 256 last.cookie
  pub auth : last.auth ≡ first_auth offset fs

see_all_done :
    (fs : List Field) (offset : ℕ) (seen last : Seen) (a : ℕ × List ℕ)
    → seen.auth ≡ some a
    → see_all offset fs seen ≡ ok last
    → last ≡ seen
unfolding see_all see_field
see_all_done [] offset seen last a done h = ground (arith, h)
see_all_done (f ∷ fs) offset seen last a done h =
    see_all_done fs (offset + (4 + length f.1)) seen last a done (ground (arith, done, h))

append_each :
    (t : ℕ) (f : Field) (fs : List Field) (xs : List (List ℕ))
    → (xs ++ only t f) ++ bodies t fs ≡ xs ++ bodies t (f ∷ fs)
unfolding bodies
append_each t f fs xs = elim (Bool-cases (f.0 == t)) [
  | inl q ↦ append_assoc xs (only t f) (bodies t fs) ∙ ground (arith, q)
  | inr q ↦ append_assoc xs (only t f) (bodies t fs) ∙ ground (arith, q)
]

pub see_all-Gathers :
    (fs : List Field) (offset : ℕ) (seen last : Seen)
    → seen.auth ≡ none
    → see_all offset fs seen ≡ ok last
    → Gathers offset fs seen last
unfolding see_all see_field front bodies first_auth
see_all-Gathers [] offset seen last free h =
    let same : last ≡ seen = ground (arith, h) in
    record {
      uid = ap (λ (s : Seen). listed s.uid) same ∙ sym (append-nil (listed seen.uid));
      cookie = ap (λ (s : Seen). listed s.cookie) same ∙ sym (append-nil (listed seen.cookie));
      uid_sized = subst (λ (s : Seen). Sized 32 256 s.uid) (sym same);
      cookie_sized = subst (λ (s : Seen). Sized 1 256 s.cookie) (sym same);
      auth = ap (λ (s : Seen). s.auth) same ∙ free;
    }
see_all-Gathers (f ∷ fs) offset seen last free h =
    elim (Result-cases (switch_field f.0 f.1 offset seen)) [
      | inr (e, q) ↦ absurd (ground (arith, h, free, q))
      | inl (next, q) ↦
          let adds = switch_field-Adds f offset seen next free q in
          let rest : see_all (offset + (4 + length f.1)) fs next ≡ ok last =
            ground (arith, h, free, q) in
          elim (Bool-cases (f.0 == 0x0404)) [
            | inl c ↦ last_field next adds rest c
            | inr c ↦ further next adds c (
                see_all-Gathers fs (offset + (4 + length f.1)) next last
                  (ground (arith, adds.auth, c)) rest)
          ]
    ]
  where
    no_body :
        (t : ℕ) → (f.0 == 0x0404) ≡ true → (f.0 == t) ≡ false → only t f ≡ bodies t (front (f ∷ fs))
    no_body t c e = ground (arith, c, e)

    last_field :
        (next : Seen)
        → Adds offset f seen next
        → see_all (offset + (4 + length f.1)) fs next ≡ ok last
        → (f.0 == 0x0404) ≡ true
        → Gathers offset (f ∷ fs) seen last
    last_field next adds rest c =
        let found : next.auth ≡ some (offset, f.1) = ground (arith, adds.auth, c) in
        let same = see_all_done fs _ next last (offset, f.1) found rest in
        record {
          uid =
              ap (λ (s : Seen). listed s.uid) same
              ∙ adds.uid
              ∙ ap (λ (b : List (List ℕ)). listed seen.uid ++ b)
                  (no_body 0x0104 c (ground (arith, c)));
          cookie =
              ap (λ (s : Seen). listed s.cookie) same
              ∙ adds.cookie
              ∙ ap (λ (b : List (List ℕ)). listed seen.cookie ++ b)
                  (no_body 0x0204 c (ground (arith, c)));
          uid_sized = λ s. subst (λ (x : Seen). Sized 32 256 x.uid) (sym same) (adds.uid_sized s);
          cookie_sized =
              λ s. subst (λ (x : Seen). Sized 1 256 x.cookie) (sym same) (adds.cookie_sized s);
          auth = ap (λ (s : Seen). s.auth) same ∙ found ∙ ground (arith, c);
        }

    further :
        (next : Seen)
        → Adds offset f seen next
        → (f.0 == 0x0404) ≡ false
        → Gathers (offset + (4 + length f.1)) fs next last
        → Gathers offset (f ∷ fs) seen last
    further next adds c r =
        let longer : f ∷ front fs ≡ front (f ∷ fs) = ground (arith, c) in
        record {
          uid =
              r.uid
              ∙ ap (λ (b : List (List ℕ)). b ++ bodies 0x0104 (front fs)) adds.uid
              ∙ append_each 0x0104 f (front fs) (listed seen.uid)
              ∙ ap (λ (g : List Field). listed seen.uid ++ bodies 0x0104 g) longer;
          cookie =
              r.cookie
              ∙ ap (λ (b : List (List ℕ)). b ++ bodies 0x0204 (front fs)) adds.cookie
              ∙ append_each 0x0204 f (front fs) (listed seen.cookie)
              ∙ ap (λ (g : List Field). listed seen.cookie ++ bodies 0x0204 g) longer;
          uid_sized = λ s. r.uid_sized (adds.uid_sized s);
          cookie_sized = λ s. r.cookie_sized (adds.cookie_sized s);
          auth = r.auth ∙ ground (arith, c);
        }
