-- ===== src/Nts.antt =====
-- Network Time Security: the AEAD of main/nts_aes_siv.c, the master keys of main/nts_storage.c,
-- the cookies of main/nts_cookie.c, the authentication of main/nts_ntp_auth.c and the key exchange
-- of main/nts_ke.c.
pub mod AesSiv
pub mod Keyring
pub mod Cookie
pub mod Auth
pub mod Ke
pub mod Doubles
