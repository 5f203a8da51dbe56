-- ===== src/Nts/AesSiv/Tests.antt =====
-- AES-SIV over the stand-in API, and the theorems at concrete packets.
use esp32p4_nts_time_server.Base.{
  ℕ, ◌-◌, ◌≡◌, refl, List, [], ◌∷◌, ◌++◌, none, length, take, drop, arith, ok, esp_ok,
}
use esp32p4_nts_time_server.Base.Bytes.{zeros, overwrite}
use esp32p4_nts_time_server.Nts.AesSiv.{
  encrypt, decrypt, open_sealed, aes_siv_s2v, aes_ctr_crypt, constant_time_equal, dbl_block, init,
  psa_to_esp, cmac_128, import_cmac_key, import_ctr_key, run_ctr, s2v_associated, s2v_nonce,
  s2v_input, s2v_final, padded_block, xor_block, shift_left, ctr_iv, differences,
}
use esp32p4_nts_time_server.Nts.AesSiv.Safety.{decrypt_authentic}
use esp32p4_nts_time_server.Nts.AesSiv.Works.{decrypt-encrypt}
use esp32p4_nts_time_server.Nts.Doubles.{
  length_mac, sevens, toy_psa, toy_psa-Works, toy_psa-MacIsBlock,
}

abbrev plaintext : List ℕ
plaintext = 1 ∷ 2 ∷ 3 ∷ []

-- The tag of 16 bytes, then the three bytes xored with sevens.
abbrev packet : List ℕ
packet = zeros 15 ++ (16 ∷ 6 ∷ 5 ∷ 4 ∷ [])

packet_opens : (decrypt toy_psa (zeros 32) [] none packet (zeros 3) 3).status ≡ esp_ok
unfolding decrypt open_sealed aes_siv_s2v aes_ctr_crypt constant_time_equal init psa_to_esp cmac_128
    import_cmac_key import_ctr_key run_ctr s2v_associated s2v_nonce s2v_input s2v_final padded_block
    xor_block shift_left ctr_iv differences dbl_block
packet_opens = refl

decrypt_authentic_example :
    (p : List ℕ) × (aes_ctr_crypt toy_psa (drop 16 (zeros 32)) packet (drop 16 packet) ≡ ok p)
    × (aes_siv_s2v toy_psa (zeros 32) [] none p ≡ ok (take 16 packet))
    × ((decrypt toy_psa (zeros 32) [] none packet (zeros 3) 3).output ≡ overwrite (zeros 3) p)
    × ((decrypt toy_psa (zeros 32) [] none packet (zeros 3) 3).output_len ≡ length packet - 16)
decrypt_authentic_example =
    decrypt_authentic toy_psa toy_psa-MacIsBlock (zeros 32) [] none packet (zeros 3) 3 (omega arith)
      packet_opens

decrypt-encrypt_example :
    let e = encrypt toy_psa (zeros 32) [] none plaintext (zeros 20) 20 in
    let d = decrypt toy_psa (zeros 32) [] none (take e.output_len e.output) (zeros 5) 5 in
    (e.status ≡ esp_ok) × (d.status ≡ esp_ok) × (take d.output_len d.output ≡ plaintext)
decrypt-encrypt_example =
    decrypt-encrypt length_mac sevens toy_psa toy_psa toy_psa-Works toy_psa-Works (zeros 32) [] none
      plaintext (zeros 20) (zeros 5) 20 5 (omega arith) (omega arith)

-- A block whose first bit is set.
abbrev block : List ℕ
block = 128 ∷ zeros 14 ++ (3 ∷ [])
