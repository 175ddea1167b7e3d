-- ===== src/Telink/Packet/Notification.antt =====
-- Notifications of `protocol.py`.
use tuya_ble_mesh.Prelude.{◌+◌, ◌≤◌, ◌<◌, ◌≡◌, refl, sym, ap, ◌∙◌, arith, ◌++◌}
use tuya_ble_mesh.Prelude.{reverse, ok, length, take, drop, not-lt→ltb}
use tuya_ble_mesh.Prelude.{
  length-append, length-take, take-append, drop-append, take_all, append_assoc,
}
use tuya_ble_mesh.Bytes.{Bytes}
use tuya_ble_mesh.Telink.Crypto.{BlockCipher, crypt_payload}
use tuya_ble_mesh.Telink.Crypto.Counter.{crypt_payload_involutive}
use tuya_ble_mesh.Telink.Crypto.Checksum.{full_mac, make_checksum-full_mac, verify_checksum_decides}
use tuya_ble_mesh.Telink.Packet.{build_notification_nonce, decrypt_notification}

-- `[rev_mac[0:3]][packet[0:5]]`
unfoldable pub notification_nonce : Bytes → Bytes → Bytes
notification_nonce mac header = take 3 (reverse mac) ++ header

build_notification_nonce-notification_nonce :
    (mac header : Bytes)
    → length mac ≡ 6
    → length header ≡ 5
    → build_notification_nonce mac header ≡ ok (notification_nonce mac header)
unfolding build_notification_nonce notification_nonce
build_notification_nonce-notification_nonce mac header hm hh =
    rw (hm, hh, take_all 5 header (omega arith)) refl

-- The packet that a device sends for a payload of 1 to 255 bytes behind a header of 5: header, two
-- MAC bytes, cipher text under the notification nonce. Decrypting it gives the header and the MAC
-- bytes unchanged and the payload in place of the cipher text.
pub decrypt_notification-sealed :
    (aes : BlockCipher) (key mac header payload : Bytes)
    → length key ≡ 16
    → length mac ≡ 6
    → length header ≡ 5
    → 1 ≤ length payload
    → length payload < 256
    → let nonce = notification_nonce mac header in
      let two = take 2 (full_mac aes key nonce payload) in
      (cipher : Bytes) × (crypt_payload aes key nonce payload ≡ ok cipher)
      × (decrypt_notification aes key mac (header ++ two ++ cipher) ≡ ok (header ++ two ++ payload))
unfolding decrypt_notification
decrypt_notification-sealed aes key mac header payload hk hm hh lo hi =
    let nonce = notification_nonce mac header in
    let two = take 2 (full_mac aes key nonce payload) in
    let (cipher, seals, long, opens) =
      crypt_payload_involutive aes key nonce payload hk (omega arith) in
    let pair : length two ≡ 2 = omega (
      arith,
      length-take 2 (full_mac aes key nonce payload),
      (make_checksum-full_mac aes key nonce payload hk hi).1,
    ) in
    let total : length (header ++ two ++ cipher) ≡ 7 + length payload =
      omega (arith, length-append (header ++ two) cipher, length-append header two) in
    let (accepts, _) = verify_checksum_decides aes key nonce payload two hk hi in
    let assoc = append_assoc header two cipher in
    let front : length (header ++ two) ≡ 7 = omega (arith, length-append header two) in
    (
      cipher,
      seals,
      rw
          (
            total,
            not-lt→ltb (7 + length payload) 8 (omega arith),
            ap (take 5) assoc ∙ take-append 5 header (two ++ cipher) hh,
            build_notification_nonce-notification_nonce mac header hm hh,
            drop-append 7 (header ++ two) cipher front,
            opens,
            ap (drop 5) assoc ∙ drop-append 5 header (two ++ cipher) hh,
            take-append 2 two cipher pair,
            accepts.1 (sym (take_all 2 two (omega arith))),
            take-append 7 (header ++ two) cipher front,
          )
          refl,
    )
