-- ===== src/Gnss/Messages/Identity.antt =====
-- main/gnss_service.c: the texts of a MON-VER message. A text in a buffer of `n` bytes is a list of
-- fewer than `n` characters.
use Prim.Native.Nat.{zero, suc}
use esp32p4_nts_time_server.Base.{
  ℕ, ◌+◌, ◌-◌, ◌/◌, Bool, not, ◌&&◌, ◌||◌, List, [], ◌∷◌, length, take, drop, u32, ltb, ◌==◌,
  if◌then◌else◌,
}
use esp32p4_nts_time_server.Base.Bytes.{byte_at}
use esp32p4_nts_time_server.Gnss.Nmea.{before}
use esp32p4_nts_time_server.Gnss.Messages.{Gnss}

abbrev pub is_empty : List ℕ → Bool
is_empty text = length text == 0

unfoldable pub trim_spaces : List ℕ → List ℕ
trim_spaces [] = []
trim_spaces (x ∷ xs) =
    let rest = trim_spaces xs in if is_empty rest && (x == 32) then [] else x ∷ rest

unfoldable pub copy_ubx_text_field : ℕ → List ℕ → List ℕ
copy_ubx_text_field dst_size src = take (dst_size - 1) (trim_spaces (before 0 src))

-- The first of the extensions that starts with `MOD=` and goes on.
unfoldable pub find_model : ℕ → List ℕ → List ℕ
find_model zero rest = []
find_model (suc extensions) rest =
    let extension = copy_ubx_text_field 31 (take 30 rest) in
    let later = find_model extensions (drop 30 rest) in
    if (byte_at extension 0 == 77)
      && (byte_at extension 1 == 79)
      && (byte_at extension 2 == 68)
      && (byte_at extension 3 == 61)
      && not (byte_at extension 4 == 0)
    then take 31 (drop 4 extension)
    else later

unfoldable pub handle_ubx_mon_ver : List ℕ → Gnss → Gnss
handle_ubx_mon_ver payload g =
    let s = g.status in
    if ltb (length payload) 40
    then record g {
      status = record s { ubx_frames_invalid_length = u32 (s.ubx_frames_invalid_length + 1) };
    }
    else (let software = copy_ubx_text_field 31 (take 30 payload) in
        let hardware = copy_ubx_text_field 11 (take 10 (drop 30 payload)) in
        let found = find_model ((length payload - 40) / 30) (drop 40 payload) in
        let model = if is_empty found && not (is_empty hardware) then take 31 hardware else found in
        record g {
          status = record s {
            receiver_model = take 31 model;
            receiver_software_version = take 30 software;
            receiver_hardware_version = take 10 hardware;
            receiver_identity_valid = not (is_empty software) || not (is_empty hardware);
          };
        })
