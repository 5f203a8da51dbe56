-- ===== src/Base/Errors.antt =====
-- `esp_err_t`: the codes that the modelled files return, and results that carry one.
use mathlib.Core.Path.{◌≡◌, refl}
use mathlib.Core.Logic.{◌⊎◌, inl, inr}

-- The values of `esp_err_t` other than ESP_OK, as far as the modelled code names them.
pub data EspErr : Type 0 where
  fail no_mem invalid_arg invalid_state invalid_size not_found not_supported timeout
        invalid_response invalid_crc nvs_not_found :
      EspErr

-- A function that returns `esp_err_t`: ESP_OK with the values of its out-parameters, or a code.
pub data Result {ℓ} (A : Type ℓ) : Type ℓ where
  ok : A → Result A
  err : EspErr → Result A

-- An `esp_err_t` by itself.
abbrev pub Status : Type 0
Status = Result (Unit {0})

abbrev pub esp_ok : Status
esp_ok = ok tt

infixl 5 ◌>>=◌ ◌>>◌
-- The next call, where this one succeeded.
abbrev pub ◌>>=◌ {ℓ κ} : {A : Type ℓ} {C : Type κ} → Result A → (A → Result C) → Result C
ok value >>= next = next value
err code >>= next = err code

abbrev pub ◌>>◌ {ℓ} : {C : Type ℓ} → Status → Result C → Result C
first >> next = first >>= λ _. next

pub Result-cases {ℓ} :
    {A : Type ℓ} (r : Result A) → ((a : A) × (r ≡ ok a)) ⊎ ((e : EspErr) × (r ≡ err e))
Result-cases (ok a) = inl (a, refl)
Result-cases (err e) = inr (e, refl)

pub >>=-eq-ok {ℓ κ} :
    {A : Type ℓ} {C : Type κ} (first : Result A) (next : A → Result C) {final : C}
    → (first >>= next) ≡ ok final
    → (value : A) × (first ≡ ok value) × (next value ≡ ok final)
>>=-eq-ok (ok value) next h = (value, refl, h)
>>=-eq-ok (err code) next h = cc
