-- ===== src/Nts/Cookie/Wire.antt =====
-- The plaintext of a cookie: what `unpack_payload` reads from the bytes that `payload` lays out.
use esp32p4_nts_time_server.Base.{
  ℕ, zero, suc, ◌*◌, ◌/◌, ◌^◌, ◌<◌, ◌≤◌, ◌≡◌, refl, ap, sym, ◌∙◌, List, ◌++◌, some, length, take,
  drop, bit_or, u8, u64, ◌<<<◌, ◌>>>◌, esp_ok, arith, take_prefix, drop_prefix, length-append,
  drop-drop, take_all,
}
use native.Mathlib.Nat.{div-div-eq-div-mul, div-le_self, pow-suc}
use mathlib.Core.Path.{subst}
use esp32p4_nts_time_server.Base.Bits.{bit_or_fields}
use esp32p4_nts_time_server.Base.Bytes.{
  read_be16, read_be32, be16_bytes, be32_bytes, read_be32-bytes, read_be16-bytes,
}
use esp32p4_nts_time_server.Nts.Cookie.{
  CookieKeys, cookie_magic, low_bytes, be64_bytes, read_bytes, read_be64, payload, wrong_header,
  unpack_payload,
}

pub length-low_bytes : (n value : ℕ) → length (low_bytes n value) ≡ n
unfolding low_bytes
length-low_bytes zero value = refl
length-low_bytes (suc n) value = ap suc (length-low_bytes n value)

pow_add_eight : (k : ℕ) → 2 ^ suc (suc (suc (suc (suc (suc (suc (suc k))))))) ≡ 2 ^ k * 256
pow_add_eight k = simp pow-suc (omega arith)

shifted : (n value : ℕ) → value >>> (suc n * 8) ≡ (value >>> (n * 8)) / 256
shifted n value =
    let power : 2 ^ (suc n * 8) ≡ 2 ^ (n * 8) * 256 =
      ap (λ (k : ℕ). 2 ^ k) (omega arith) ∙ pow_add_eight (n * 8) in
    ap (λ (k : ℕ). value / k) power ∙ sym (div-div-eq-div-mul value (2 ^ (n * 8)) 256)

-- The bytes read so far are the value without its last `n` bytes.
read_bytes-low_bytes :
    (n value : ℕ) (rest : List ℕ)
    → value < 2 ^ 64
    → read_bytes n (low_bytes n value ++ rest) (value >>> (n * 8)) ≡ value
unfolding read_bytes low_bytes
read_bytes-low_bytes zero value rest h = omega arith
read_bytes-low_bytes (suc n) value rest h =
    subst (λ (k : ℕ). read_bytes n (low_bytes n value ++ rest) k ≡ value) (sym next)
      (read_bytes-low_bytes n value rest h)
  where
    top : ℕ
    top = value >>> (n * 8)

    small : top ≤ value
    small = div-le_self value (2 ^ (n * 8))

    next : bit_or (u64 ((value >>> (suc n * 8)) <<< 8)) (u8 top) ≡ top
    next =
        let cut = shifted n value in
        let fits : u64 ((value >>> (suc n * 8)) <<< 8) ≡ (top / 256) <<< 8 =
          omega (arith, cut, small) in
        rw (fits, bit_or_fields 8 (top / 256) (u8 top) (omega arith)) (omega arith)

-- A stored 64-bit field reads back, whatever follows it.
pub read_be64-bytes :
    (value : ℕ) (rest : List ℕ) → value < 2 ^ 64 → read_be64 (be64_bytes value ++ rest) ≡ value
unfolding read_be64 be64_bytes
read_be64-bytes value rest h =
    let none_yet : value >>> 64 ≡ 0 = omega arith in
    subst (λ (k : ℕ). read_bytes 8 (low_bytes 8 value ++ rest) k ≡ value) none_yet
      (read_bytes-low_bytes 8 value rest h)

-- Keys whose fields fit the structure.
pub record Fits (keys : CookieKeys) : Type 0 where
  pub c2s : length keys.c2s_key ≡ 32
  pub s2c : length keys.s2c_key ≡ 32
  pub issued : keys.issued_ntp_seconds < 2 ^ 64
  pub expires : keys.expires_ntp_seconds < 2 ^ 64

abbrev from_issued : CookieKeys → List ℕ
from_issued keys =
    be64_bytes keys.issued_ntp_seconds
    ++ be64_bytes keys.expires_ntp_seconds
    ++ take 32 keys.c2s_key
    ++ take 32 keys.s2c_key

abbrev from_expires : CookieKeys → List ℕ
from_expires keys =
    be64_bytes keys.expires_ntp_seconds ++ take 32 keys.c2s_key ++ take 32 keys.s2c_key

-- Where the fields of a plaintext stand.
payload_fields :
    (key_id : ℕ) (keys : CookieKeys)
    → (drop 4 (payload key_id keys)
        ≡ be16_bytes 1 ++ be16_bytes 0 ++ be32_bytes key_id ++ from_issued keys)
      × (drop 6 (payload key_id keys) ≡ be16_bytes 0 ++ be32_bytes key_id ++ from_issued keys)
      × (drop 8 (payload key_id keys) ≡ be32_bytes key_id ++ from_issued keys)
      × (drop 12 (payload key_id keys) ≡ from_issued keys)
      × (drop 20 (payload key_id keys) ≡ from_expires keys)
      × (drop 28 (payload key_id keys) ≡ take 32 keys.c2s_key ++ take 32 keys.s2c_key)
unfolding payload be16_bytes be32_bytes be64_bytes low_bytes
payload_fields key_id keys = (refl, refl, refl, refl, refl, refl)

payload_head :
    (key_id : ℕ) (keys : CookieKeys)
    → payload key_id keys ≡ be32_bytes cookie_magic ++ drop 4 (payload key_id keys)
unfolding payload be32_bytes
payload_head key_id keys = refl

payload_magic : (key_id : ℕ) (keys : CookieKeys) → read_be32 (payload key_id keys) ≡ cookie_magic
payload_magic key_id keys =
    rw (payload_head key_id keys)
      (read_be32-bytes cookie_magic (drop 4 (payload key_id keys)) (omega arith))

pub length-payload :
    (key_id : ℕ) (keys : CookieKeys) → Fits keys → length (payload key_id keys) ≡ 92
unfolding payload be16_bytes be32_bytes be64_bytes low_bytes
length-payload key_id keys f =
    rw
      (
        take_all 32 keys.c2s_key (omega (arith, f.c2s)),
        take_all 32 keys.s2c_key (omega (arith, f.s2c)),
      )
      (omega (arith, length-append keys.c2s_key keys.s2c_key, f.c2s, f.s2c))

-- The plaintext of keys that fit, read under the key id it was laid out with at a time of its
-- life, gives the keys with that id.
pub unpack_payload-payload :
    (key_id now : ℕ) (keys old : CookieKeys)
    → key_id < 2 ^ 32
    → Fits keys
    → keys.issued_ntp_seconds ≤ now
    → now < keys.expires_ntp_seconds
    → unpack_payload key_id (some now) (payload key_id keys) old
      ≡ (esp_ok, record keys { master_key_id = key_id })
unfolding unpack_payload wrong_header be16_bytes be64_bytes low_bytes
unpack_payload-payload key_id now keys old small f born alive =
    let (p4, p6, p8, p12, p20, p28) = payload_fields key_id keys in
    let p = payload key_id keys in
    let version : read_be16 (drop 4 p) ≡ 1 =
      rw p4
        (read_be16-bytes 1 (be16_bytes 0 ++ be32_bytes key_id ++ from_issued keys) (omega arith)) in
    let reserved : read_be16 (drop 6 p) ≡ 0 =
      rw p6 (read_be16-bytes 0 (be32_bytes key_id ++ from_issued keys) (omega arith)) in
    let id : read_be32 (drop 8 p) ≡ key_id =
      rw p8 (read_be32-bytes key_id (from_issued keys) small) in
    let issued : read_be64 (drop 12 p) ≡ keys.issued_ntp_seconds =
      rw p12 (read_be64-bytes keys.issued_ntp_seconds (from_expires keys) f.issued) in
    let expires : read_be64 (drop 20 p) ≡ keys.expires_ntp_seconds = rw p20 (
      read_be64-bytes keys.expires_ntp_seconds (take 32 keys.c2s_key ++ take 32 keys.s2c_key)
        f.expires) in
    let whole : take 32 keys.c2s_key ≡ keys.c2s_key =
      take_all 32 keys.c2s_key (omega (arith, f.c2s)) in
    let whole' : take 32 keys.s2c_key ≡ keys.s2c_key =
      take_all 32 keys.s2c_key (omega (arith, f.s2c)) in
    let c2s : take 32 (drop 28 p) ≡ keys.c2s_key =
      rw (p28, whole) (take_prefix 32 keys.c2s_key (take 32 keys.s2c_key) f.c2s) in
    let s2c : take 32 (drop 60 p) ≡ keys.s2c_key =
      rw (← drop-drop 32 28 p, p28, whole, whole', drop_prefix 32 keys.c2s_key keys.s2c_key f.c2s)
        whole' in
    ground (arith, payload_magic key_id keys)
