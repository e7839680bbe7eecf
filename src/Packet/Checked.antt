-- ===== src/Packet/Checked.antt =====
-- The header checksum as the parser tests it, on packets whose header carries its own checksum.
use nano_net_ull.Base.{ℕ, ◌+◌, ◌/◌, ◌%◌, ◌^◌, ◌≤◌, ◌<◌, ◌≡◌, ◌≢◌, ap, ◌∙◌, arith, some}
use nano_net_ull.Base.{List, ◌∷◌, ◌++◌, length, length-append, IsBytes, swap16, false, get_or}
use nano_net_ull.Base.{
  take-append_self, drop-append_self, get_or-append_left, get_or-append_right, sym, take, drop,
}
use nano_net_ull.Checksum.{compute_checksum, validate_checksum}
use nano_net_ull.Checksum.Sum.{IsEven}
use nano_net_ull.Checksum.Verify.{with_check, validate_checksum-own, compute_checksum-lt}
use nano_net_ull.Errno.{einval}
use nano_net_ull.Packet.{SkBuff, len, raw8, raw16, region}
use nano_net_ull.Packet.Safety.{header_len}
use nano_net_ull.Packet.Parse.{cleared, parse_ip, ull_parse_packet}

-- The `n` bytes in the middle of a buffer.
region-middle :
    (before middle after : List ℕ) (i n : ℕ)
    → length before ≡ i
    → length middle ≡ n
    → region (before ++ (middle ++ after)) i n ≡ some middle
unfolding region
region-middle before middle after i n hi hn =
    let fits : i + n ≤ length (before ++ (middle ++ after)) =
      omega (arith, length-append before (middle ++ after), length-append middle after) in
    let part : take n (drop i (before ++ (middle ++ after))) ≡ middle =
      rw (drop-append_self i before (middle ++ after) hi) (take-append_self n middle after hn) in
    rw part (ground arith)

module _ (skb : SkBuff) (eth pre post rest : List ℕ) (check : ℕ)
    (bytes : skb.bytes ≡ eth ++ (with_check pre post check ++ rest)) (eth_len : length eth ≡ 14)
    (pre_len : length pre ≡ 10) (fits : check < 2 ^ 16) where
  length-header : length (with_check pre post check) ≡ 12 + length post
  length-header = omega (arith, length-append pre (check % 256 ∷ check / 256 ∷ post))

  -- A byte of the check field or behind it.
  byte_at :
      (i j : ℕ)
      → i ≡ 24 + j
      → j < 2 + length post
      → get_or skb.bytes i 0 ≡ get_or (check % 256 ∷ check / 256 ∷ post) j 0
  byte_at i j at h =
      let header = with_check pre post check in
      rw bytes (
        get_or-append_right eth (header ++ rest) i (10 + j) 0 (omega arith)
        ∙ get_or-append_left header rest (10 + j) 0 (omega (arith, length-header))
        ∙ get_or-append_right pre (check % 256 ∷ check / 256 ∷ post) (10 + j) j 0 (omega arith))

  raw16-check : raw16 skb.bytes 24 ≡ check
  raw16-check =
      omega
        (arith, byte_at 24 0 (omega arith) (omega arith), byte_at 25 1 (omega arith) (omega arith))

  header_inside : 26 + length post ≤ len skb
  header_inside = rw bytes (
      omega (
        arith,
        length-append eth (with_check pre post check ++ rest),
        length-append (with_check pre post check) rest,
        length-header,
      ))

  region-header :
      header_len skb ≡ 12 + length post
      → region skb.bytes 14 (header_len skb) ≡ some (with_check pre post check)
  region-header h =
      ap (λ (b : List ℕ). region b 14 (header_len skb)) bytes
      ∙ region-middle eth (with_check pre post check) rest 14 (header_len skb) eth_len
          (length-header ∙ sym h)

  -- The code of `ull_parse_packet` where everything above the checksum is in order, and the
  -- checksum is refused.
  refused :
      swap16 (raw16 skb.bytes 12) ≡ 0x0800
      → raw8 skb.bytes 14 / 16 ≡ 4
      → header_len skb ≡ 12 + length post
      → 8 ≤ length post
      → validate_checksum (with_check pre post check) check ≡ false
      → ull_parse_packet skb ≡ some (einval, record cleared { ip_hdr = some 14 })
  unfolding ull_parse_packet parse_ip
  refused ip v4 hl long bad = ground (arith, raw16-check, header_inside, region-header)

-- An IPv4 packet with a correct header checksum is refused with `-EINVAL`, unless that checksum
-- happens to be 0: the sum over a correct header is 0, and the parser compares it with the field.
pub ull_parse_packet-rejects :
    (skb : SkBuff) (eth pre post rest : List ℕ)
    → skb.bytes ≡ eth ++ (with_check pre post (compute_checksum (with_check pre post 0)) ++ rest)
    → length eth ≡ 14
    → length pre ≡ 10
    → 8 ≤ length post
    → header_len skb ≡ 12 + length post
    → IsBytes pre × IsBytes post
    → swap16 (raw16 skb.bytes 12) ≡ 0x0800
    → raw8 skb.bytes 14 / 16 ≡ 4
    → compute_checksum (with_check pre post 0) ≢ 0
    → ull_parse_packet skb ≡ some (einval, record cleared { ip_hdr = some 14 })
ull_parse_packet-rejects skb eth pre post rest e el pl long hl b ip v4 ne =
    let check = compute_checksum (with_check pre post 0) in
    let even : IsEven pre = omega arith in
    let small : length pre + 2 + length post < 2 ^ 16 = omega arith in
    let refuses : validate_checksum (with_check pre post check) check ≡ false =
      validate_checksum-own pre post even b small ∙ ground arith in
    refused skb eth pre post rest check e el pl (compute_checksum-lt (with_check pre post 0)) ip v4
      hl long refuses
