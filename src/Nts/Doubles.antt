-- ===== src/Nts/Doubles.antt =====
-- Stand-ins for the crypto API and for NVS that work: what the theorems about main/nts_aes_siv.c,
-- main/nts_storage.c and main/nts_cookie.c suppose of the libraries can hold.
use esp32p4_nts_time_server.Base.{
  ℕ, ◌%◌, refl, List, [], ◌∷◌, ◌++◌, true, false, length, replicate, length-replicate, append-nil,
  arith, esp_ok,
}
use esp32p4_nts_time_server.Base.Bytes.{zeros}
use esp32p4_nts_time_server.Nts.AesSiv.{Psa, success, xor_bytes}
use esp32p4_nts_time_server.Nts.AesSiv.Safety.{MacIsBlock}
use esp32p4_nts_time_server.Nts.AesSiv.Works as Siv
use esp32p4_nts_time_server.Nts.Keyring.{Blob, ring, Nvs, Memory}
use esp32p4_nts_time_server.Nts.Keyring.Storage as Store

-- A MAC that is the length of its input, in 16 bytes.
abbrev pub length_mac : List ℕ → List ℕ → List ℕ
length_mac key input = zeros 15 ++ (length input % 256 ∷ [])

-- A key stream of sevens.
abbrev pub sevens : List ℕ → List ℕ → ℕ → List ℕ
sevens key iv n = replicate n 7

abbrev pub toy_psa : Psa
toy_psa = record {
  Operation = Unit {0};
  operation_init = tt;
  crypto_init = success;
  import_key = λ use_as key. (success, 1);
  mac_compute = λ id input. (success, length_mac [] input, 16);
  cipher_encrypt_setup = λ o id. (success, o);
  cipher_set_iv = λ o iv. (success, o);
  cipher_update = λ o input. (success, xor_bytes input (sevens [] [] (length input)), o);
  cipher_finish = λ o. (success, []);
  malloc_succeeds = λ n. true;
}

pub toy_psa-Works : Siv.Works toy_psa length_mac sevens
toy_psa-Works = record {
  init = refl;
  heap = λ n. refl;
  cmac = λ key input. (refl, refl);
  cmac_length = λ key input. refl;
  ctr = λ key iv input.
      (refl, refl, refl, refl, refl, append-nil (xor_bytes input (sevens [] [] (length input))));
  stream_length = λ key iv n. length-replicate n 7;
}

pub toy_psa-MacIsBlock : MacIsBlock toy_psa
toy_psa-MacIsBlock id input = (omega arith, refl)

-- A partition that holds one blob.
abbrev pub toy_nvs : Nvs
toy_nvs = record {
  Store = Blob;
  create_mutex = true;
  acme_storage_init = λ s. (esp_ok, s);
  open_readonly = λ s. esp_ok;
  open_readwrite = λ s. esp_ok;
  get_blob = λ s. s;
  set_blob = λ r s. (esp_ok, ring r);
  commit = λ s. (esp_ok, s);
}

pub toy_nvs-Works : Store.Works toy_nvs
toy_nvs-Works = record {
  mutex = refl;
  starts = λ s. (refl, refl);
  reads = λ s. refl;
  writes = λ s. refl;
  sets = λ r s. (refl, refl);
  commits = λ s. (refl, refl);
}

-- The memory at power-up over a partition.
abbrev pub booted : Blob → Memory toy_nvs
booted b = record { locked = false; initialized = false; store = b }
