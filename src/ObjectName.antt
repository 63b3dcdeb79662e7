-- ===== src/ObjectName.antt =====
-- src/object_name.h, src/object_name.cpp: the identity of the agent. Random numbers and the clock
-- are arguments, and `absl::WebSafeBase64Escape` is a parameter.
pub mod Layout
pub mod Resolve
mod Tests
use pinpoint_cpp_agent.Common.{
  ℕ, zero, suc, ◌+◌, ◌*◌, ◌/◌, ◌%◌, ◌^◌, ◌≡◌, Bool, true, false, not, ◌&&◌, ◌||◌, List, [], ◌∷◌,
  ◌++◌, Option, none, some, length, is_empty, ltb, leb, ◌==◌, if◌then◌else◌, Bytes, codes, is_digit,
}

pub data NameVersion : Type 0 where
  k_v1 : NameVersion
  k_v3 : NameVersion
  k_v4 : NameVersion

-- `std::tolower` in the C locale
abbrev pub to_lower : ℕ → ℕ
to_lower c = if leb b'A' c && leb c b'Z' then c + 32 else c

abbrev pub iequals : Bytes → Bytes → Bool
iequals [] [] = true
iequals [] (d ∷ t) = false
iequals (c ∷ s) [] = false
iequals (c ∷ s) (d ∷ t) = (to_lower c == to_lower d) && iequals s t

unfoldable pub parse_name_version : Bytes → NameVersion
parse_name_version value =
    if iequals value (codes "v1") then k_v1 else if iequals value (codes "v4") then k_v4 else k_v3

abbrev pub agent_id_max_len : ℕ
agent_id_max_len = 24

abbrev pub agent_name_max_len : ℕ
agent_name_max_len = 255

abbrev pub service_name_max_len : ℕ
service_name_max_len = 254

abbrev pub application_name_max_len_v1 : ℕ
application_name_max_len_v1 = 24

abbrev pub application_name_max_len_v3 : ℕ
application_name_max_len_v3 = service_name_max_len

abbrev pub agent_name_max_len_v4 : ℕ
agent_name_max_len_v4 = service_name_max_len

abbrev pub version_v1 : ℕ
version_v1 = 1

abbrev pub version_v4 : ℕ
version_v4 = 4

pub record Uuid : Type 0 where
  pub msb : ℕ
  pub lsb : ℕ

abbrev pub no_uuid : Uuid
no_uuid = record { msb = 0; lsb = 0 }

-- What a new id is made of: the milliseconds of the clock, and the two random words.
pub record Fresh : Type 0 where
  pub now_ms : ℕ
  pub random_a : ℕ
  pub random_b : ℕ

-- The masks keep the low bits, and the fields joined by `|` have no bit in common.
unfoldable pub generate_uuid_v7 : Fresh → Uuid
generate_uuid_v7 fresh = record {
  msb = fresh.now_ms % 2 ^ 48 * 2 ^ 16 + 7 * 2 ^ 12 + fresh.random_a % 2 ^ 12;
  lsb = 2 * 2 ^ 62 + fresh.random_b % 2 ^ 62;
}

-- The `n` low bytes, the highest first.
unfoldable pub write_be : ℕ → ℕ → Bytes
write_be zero value = []
write_be (suc n) value = value / 256 ^ n % 256 ∷ write_be n value

abbrev pub write_be64 : ℕ → Bytes
write_be64 value = write_be 8 value

-- The loop that takes `=` off the end.
abbrev pub strip_padding : Bytes → Bytes
strip_padding [] = []
strip_padding (c ∷ s) =
    let rest = strip_padding s in if is_empty rest && (c == b'=') then [] else c ∷ rest

abbrev pub uuid_bytes : Uuid → Bytes
uuid_bytes uuid = write_be64 uuid.msb ++ write_be64 uuid.lsb

abbrev pub base64_encode_uuid : (Bytes → Bytes) → Uuid → Bytes
base64_encode_uuid web_safe_base64 uuid = strip_padding (web_safe_base64 (uuid_bytes uuid))

abbrev pub is_id_char : ℕ → Bool
is_id_char c =
    (leb b'a' c && leb c b'z')
    || (leb b'A' c && leb c b'Z')
    || is_digit c
    || (c == b'.')
    || (c == b'-')
    || (c == b'_')

abbrev pub all_id_chars : Bytes → Bool
all_id_chars [] = true
all_id_chars (c ∷ s) = is_id_char c && all_id_chars s

unfoldable pub validate_id : Bytes → ℕ → Bool
validate_id value max_len =
    if is_empty value || ltb max_len (length value) then false else all_id_chars value

pub record ObjectNameInput : Type 0 where
  pub agent_id : Bytes
  pub agent_name : Bytes
  pub application_name : Bytes
  pub service_name : Bytes
  pub api_key : Bytes

pub record ObjectName : Type 0 where
  pub version : ℕ
  pub agent_id : Bytes
  pub agent_name : Bytes
  pub application_name : Bytes
  pub service_name : Bytes
  pub api_key : Bytes
  pub agent_uuid : Uuid

abbrev pub is_v4 : ObjectName → Bool
is_v4 o = o.version == version_v4

abbrev pub protocol_version : ObjectName → ℕ
protocol_version o = if is_v4 o then 400 else 100

-- `new_uuid` is what the generator gives if it is asked.
module _ (web_safe_base64 : Bytes → Bytes) (new_uuid : Uuid) where
  unfoldable pub resolve_v1_v3 : ObjectNameInput → ℕ → Option ObjectName
  resolve_v1_v3 input application_name_max_len =
      let agent_id =
        if validate_id input.agent_id agent_id_max_len
        then input.agent_id
        else base64_encode_uuid web_safe_base64 new_uuid in
      if not (validate_id input.application_name application_name_max_len)
      then none
      else some (record {
        version = version_v1;
        agent_id = agent_id;
        agent_name =
            if validate_id input.agent_name agent_name_max_len then input.agent_name else agent_id;
        application_name = input.application_name;
        service_name = [];
        api_key = [];
        agent_uuid = no_uuid;
      })

  unfoldable pub resolve_v4 : ObjectNameInput → Option ObjectName
  resolve_v4 input =
      let agent_id = base64_encode_uuid web_safe_base64 new_uuid in
      if not (validate_id input.application_name agent_name_max_len_v4)
      then none
      else if not (validate_id input.service_name service_name_max_len)
      then none
      else if is_empty input.api_key
      then none
      else some (record {
        version = version_v4;
        agent_id = agent_id;
        agent_name =
            if validate_id input.agent_name agent_name_max_len_v4
            then input.agent_name
            else agent_id;
        application_name = input.application_name;
        service_name = input.service_name;
        api_key = input.api_key;
        agent_uuid = new_uuid;
      })

  abbrev pub resolve_object_name : NameVersion → ObjectNameInput → Option ObjectName
  resolve_object_name k_v1 input = resolve_v1_v3 input application_name_max_len_v1
  resolve_object_name k_v4 input = resolve_v4 input
  resolve_object_name k_v3 input = resolve_v1_v3 input application_name_max_len_v3
