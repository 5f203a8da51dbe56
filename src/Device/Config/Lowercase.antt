-- ===== src/Device/Config/Lowercase.antt =====
-- main/device_config.c: what passes a check passes it in lower case too.
use Prim.Native.Nat.{zero, suc}
use esp32p4_nts_time_server.Base.{
  ℕ, ◌+◌, ◌-◌, ◌≡◌, refl, sym, ap, ap₂, ◌∙◌, Bool, true, false, not, ◌&&◌, ◌||◌, List, [], ◌∷◌,
  arith, length, ltb, ◌==◌,
}
use esp32p4_nts_time_server.Base.Bytes.{byte_at}
use esp32p4_nts_time_server.Device.Config.{
  is_alnum, to_lower, lowercase, all_of, last_of, is_host_char, hostname_is_valid, zone_labels,
  cloudflare_zone_is_valid, is_server_char, ntp_peer_server_is_valid,
}

is_alnum-to_lower : (c : ℕ) → is_alnum (to_lower c) ≡ is_alnum c
unfolding is_alnum to_lower
is_alnum-to_lower c = ground arith

is_dash-to_lower : (c : ℕ) → (to_lower c == 45) ≡ (c == 45)
unfolding to_lower
is_dash-to_lower c = ground arith

is_dot-to_lower : (c : ℕ) → (to_lower c == 46) ≡ (c == 46)
unfolding to_lower
is_dot-to_lower c = ground arith

is_host_char-to_lower : (c : ℕ) → is_host_char (to_lower c) ≡ is_host_char c
unfolding is_host_char
is_host_char-to_lower c = ap₂ ◌||◌ (is_alnum-to_lower c) (is_dash-to_lower c)

is_server_char-to_lower : (c : ℕ) → is_server_char (to_lower c) ≡ is_server_char c
unfolding is_server_char
is_server_char-to_lower c = ap₂ ◌||◌ (is_host_char-to_lower c) (is_dot-to_lower c)

length-lowercase : (text : List ℕ) → length (lowercase text) ≡ length text
unfolding lowercase
length-lowercase [] = refl
length-lowercase (c ∷ text) = ap suc (length-lowercase text)

all_of-lowercase :
    (test : ℕ → Bool)
    → ((c : ℕ) → test (to_lower c) ≡ test c)
    → (text : List ℕ) → all_of test (lowercase text) ≡ all_of test text
unfolding all_of lowercase
all_of-lowercase test same [] = refl
all_of-lowercase test same (c ∷ text) = ap₂ ◌&&◌ (same c) (all_of-lowercase test same text)

to_lower-zero : to_lower 0 ≡ 0
unfolding to_lower
to_lower-zero = refl

byte_at-lowercase : (text : List ℕ) (i : ℕ) → byte_at (lowercase text) i ≡ to_lower (byte_at text i)
unfolding lowercase
byte_at-lowercase [] i = sym to_lower-zero
byte_at-lowercase (c ∷ text) zero = refl
byte_at-lowercase (c ∷ text) (suc i) = byte_at-lowercase text i

last_of-lowercase : (text : List ℕ) → last_of (lowercase text) ≡ to_lower (last_of text)
unfolding last_of
last_of-lowercase text =
    ap (λ (n : ℕ). byte_at (lowercase text) (n - 1)) (length-lowercase text)
    ∙ byte_at-lowercase text (length text - 1)

pub hostname_is_valid-lowercase :
    (text : List ℕ) → hostname_is_valid (lowercase text) ≡ hostname_is_valid text
unfolding hostname_is_valid
hostname_is_valid-lowercase text =
    rw
      (
        length-lowercase text,
        byte_at-lowercase text 0,
        last_of-lowercase text,
        is_alnum-to_lower (byte_at text 0),
        is_alnum-to_lower (last_of text),
        all_of-lowercase is_host_char is_host_char-to_lower text,
      )
      refl

pub ntp_peer_server_is_valid-lowercase :
    (text : List ℕ) → ntp_peer_server_is_valid (lowercase text) ≡ ntp_peer_server_is_valid text
unfolding ntp_peer_server_is_valid
ntp_peer_server_is_valid-lowercase text =
    rw
      (
        length-lowercase text,
        byte_at-lowercase text 0,
        last_of-lowercase text,
        is_dot-to_lower (byte_at text 0),
        is_dot-to_lower (last_of text),
        all_of-lowercase is_server_char is_server_char-to_lower text,
      )
      refl

zone_labels-lowercase :
    (n : ℕ) (first : Bool) (p q : ℕ) (text : List ℕ)
    → (p == 45) ≡ (q == 45)
    → zone_labels n first p (lowercase text) ≡ zone_labels n first q text
unfolding zone_labels lowercase
zone_labels-lowercase n first p q [] e = ap (λ dash. ltb 0 n && not dash) e
zone_labels-lowercase n first p q (c ∷ text) e =
    rw
      (
        is_dot-to_lower c,
        e,
        is_host_char-to_lower c,
        is_dash-to_lower c,
        zone_labels-lowercase 0 true 46 46 text refl,
        zone_labels-lowercase (n + 1) false (to_lower c) c text (is_dash-to_lower c),
      )
      refl

pub cloudflare_zone_is_valid-lowercase :
    (text : List ℕ) → cloudflare_zone_is_valid (lowercase text) ≡ cloudflare_zone_is_valid text
unfolding cloudflare_zone_is_valid
cloudflare_zone_is_valid-lowercase text =
    rw
      (
        length-lowercase text,
        byte_at-lowercase text 0,
        last_of-lowercase text,
        is_dot-to_lower (byte_at text 0),
        is_dot-to_lower (last_of text),
        zone_labels-lowercase 0 true 0 0 text refl,
      )
      refl
