-- ===== src/ObjectName/Layout.antt =====
-- The fields of a version 7 uuid, and its bytes.
use pinpoint_cpp_agent.Common.{
  ℕ, ◌+◌, ◌*◌, ◌/◌, ◌%◌, ◌^◌, ◌≡◌, ◌<◌, refl, ◌∙◌, ap, [], ◌∷◌, length, take, drop, arith, Bytes,
}
use pinpoint_cpp_agent.ObjectName.{Uuid, Fresh, generate_uuid_v7, write_be, write_be64, uuid_bytes}

-- The number whose bytes are the text, the highest first.
unfoldable pub read_be : Bytes → ℕ
read_be [] = 0
read_be (c ∷ s) = c * 256 ^ length s + read_be s

read_be-write_be64 : (v : ℕ) → v < 2 ^ 64 → read_be (write_be64 v) ≡ v
unfolding read_be write_be
read_be-write_be64 v h =
    let d7 : v / 256 ^ 7 % 256 * 256 ^ 7 + v % 256 ^ 7 ≡ v % 256 ^ 8 = omega arith in
    let d6 : v / 256 ^ 6 % 256 * 256 ^ 6 + v % 256 ^ 6 ≡ v % 256 ^ 7 = omega arith in
    let d5 : v / 256 ^ 5 % 256 * 256 ^ 5 + v % 256 ^ 5 ≡ v % 256 ^ 6 = omega arith in
    let d4 : v / 256 ^ 4 % 256 * 256 ^ 4 + v % 256 ^ 4 ≡ v % 256 ^ 5 = omega arith in
    let d3 : v / 256 ^ 3 % 256 * 256 ^ 3 + v % 256 ^ 3 ≡ v % 256 ^ 4 = omega arith in
    let d2 : v / 256 ^ 2 % 256 * 256 ^ 2 + v % 256 ^ 2 ≡ v % 256 ^ 3 = omega arith in
    let d1 : v / 256 ^ 1 % 256 * 256 ^ 1 + v % 256 ^ 1 ≡ v % 256 ^ 2 = omega arith in
    let d0 : v / 256 ^ 0 % 256 * 256 ^ 0 + 0 ≡ v % 256 ^ 1 = omega arith in
    omega (arith, d7, d6, d5, d4, d3, d2, d1, d0)

-- The first eight bytes are the high word, the others the low one.
uuid_bytes-halves :
    (u : Uuid)
    → (take 8 (uuid_bytes u) ≡ write_be64 u.msb) × (drop 8 (uuid_bytes u) ≡ write_be64 u.lsb)
unfolding write_be
uuid_bytes-halves u = (refl, refl)

-- A uuid that is generated from a clock before the year 10889, written to its 16 bytes and read
-- again, gives the milliseconds of the clock, the version 7, the low 12 bits of one random word,
-- the variant 2 and the low 62 bits of the other.
pub read_be-generate_uuid_v7 :
    (fresh : Fresh)
    → fresh.now_ms < 2 ^ 48
    → let bytes = uuid_bytes (generate_uuid_v7 fresh) in
      let msb = read_be (take 8 bytes) in
      let lsb = read_be (drop 8 bytes) in
      (length bytes ≡ 16)
      × (msb / 2 ^ 16 ≡ fresh.now_ms)
      × (msb / 2 ^ 12 % 2 ^ 4 ≡ 7)
      × (msb % 2 ^ 12 ≡ fresh.random_a % 2 ^ 12)
      × (lsb / 2 ^ 62 ≡ 2)
      × (lsb % 2 ^ 62 ≡ fresh.random_b % 2 ^ 62)
unfolding generate_uuid_v7 write_be
read_be-generate_uuid_v7 fresh h =
    let u = generate_uuid_v7 fresh in
    let (m, l) = uuid_bytes-halves u in
    let msb = ap read_be m ∙ read_be-write_be64 u.msb (omega arith) in
    let lsb = ap read_be l ∙ read_be-write_be64 u.lsb (omega arith) in
    (
      refl,
      omega (arith, msb),
      omega (arith, msb),
      omega (arith, msb),
      omega (arith, lsb),
      omega (arith, lsb),
    )
