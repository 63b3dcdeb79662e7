-- ===== src/ObjectName/Tests.antt =====
-- The identity of the agent at concrete inputs, with base64 as it is defined.
use pinpoint_cpp_agent.Common.{
  ℕ, ◌+◌, ◌-◌, ◌*◌, ◌/◌, ◌%◌, ◌≡◌, ◌^◌, refl, [], ◌∷◌, length, take, drop, ltb, arith,
  if◌then◌else◌, Bytes, codes,
}
use pinpoint_cpp_agent.ObjectName.{
  parse_name_version, k_v4, Fresh, generate_uuid_v7, uuid_bytes, ObjectNameInput, Uuid,
}
use pinpoint_cpp_agent.ObjectName.Layout.{read_be, read_be-generate_uuid_v7}

-- the characters of the alphabet that is safe in URLs
base64_char : ℕ → ℕ
base64_char i =
    if ltb i 26
    then 65 + i
    else if ltb i 52
    then 97 + (i - 26)
    else if ltb i 62
    then 48 + (i - 52)
    else if ltb i 63
    then b'-'
    else b'_'

abbrev encode : Bytes → Bytes
encode (a ∷ b ∷ c ∷ s) =
    base64_char (a / 4 % 64)
    ∷ base64_char ((a * 16 + b / 16) % 64)
    ∷ base64_char ((b * 4 + c / 64) % 64)
    ∷ base64_char (c % 64)
    ∷ encode s
encode (a ∷ b ∷ []) =
    base64_char (a / 4 % 64) ∷ base64_char ((a * 16 + b / 16) % 64) ∷ base64_char (b * 4 % 64) ∷ []
encode (a ∷ []) = base64_char (a / 4 % 64) ∷ base64_char (a * 16 % 64) ∷ []
encode [] = []

abbrev some_fresh : Fresh
some_fresh = record { now_ms = 1700000000000; random_a = 70000; random_b = 5 }

read_be-generate_uuid_v7_example :
    let bytes = uuid_bytes (generate_uuid_v7 some_fresh) in
    let msb = read_be (take 8 bytes) in
    let lsb = read_be (drop 8 bytes) in
    (length bytes ≡ 16)
    × (msb / 2 ^ 16 ≡ 1700000000000)
    × (msb / 2 ^ 12 % 2 ^ 4 ≡ 7)
    × (msb % 2 ^ 12 ≡ 70000 % 2 ^ 12)
    × (lsb / 2 ^ 62 ≡ 2)
    × (lsb % 2 ^ 62 ≡ 5 % 2 ^ 62)
read_be-generate_uuid_v7_example = read_be-generate_uuid_v7 some_fresh (omega arith)

abbrev some_input : ObjectNameInput
some_input = record {
  agent_id = codes "not valid";
  agent_name = [];
  application_name = codes "shop";
  service_name = codes "front.end";
  api_key = codes "key";
}

abbrev some_uuid : Uuid
some_uuid = record { msb = 1; lsb = 2 }

parse_version_4 : parse_name_version (codes "V4") ≡ k_v4
unfolding parse_name_version
parse_version_4 = refl
