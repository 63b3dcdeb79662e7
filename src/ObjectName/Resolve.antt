-- ===== src/ObjectName/Resolve.antt =====
-- Which inputs have an identity, and that it is one.
use pinpoint_cpp_agent.Common.{
  ℕ, ◌≡◌, ◌⊎◌, true, false, Option, none, some, length, is_empty, if◌then◌else◌, Bytes,
}
use pinpoint_cpp_agent.ObjectName.{
  NameVersion, k_v1, k_v3, k_v4, Uuid, base64_encode_uuid, all_id_chars, validate_id,
  ObjectNameInput, ObjectName, agent_id_max_len, agent_name_max_len, service_name_max_len,
  application_name_max_len_v1, application_name_max_len_v3, agent_name_max_len_v4, protocol_version,
}

-- The limits of a version.
abbrev pub max_application_name : NameVersion → ℕ
max_application_name k_v1 = application_name_max_len_v1
max_application_name k_v3 = application_name_max_len_v3
max_application_name k_v4 = service_name_max_len

abbrev pub max_agent_name : NameVersion → ℕ
max_agent_name k_v4 = agent_name_max_len_v4
max_agent_name _ = agent_name_max_len

-- The values that a version requires are there and valid.
abbrev pub HasRequired : NameVersion → ObjectNameInput → Type 0
HasRequired k_v4 input =
    (validate_id input.application_name service_name_max_len ≡ true)
    × (validate_id input.service_name service_name_max_len ≡ true)
    × (is_empty input.api_key ≡ false)
HasRequired version input = validate_id input.application_name (max_application_name version) ≡ true

-- An identity that the collector accepts for a version.
abbrev pub IsIdentity : NameVersion → ObjectName → Type 0
IsIdentity version o =
    (validate_id o.agent_id agent_id_max_len ≡ true)
    × (validate_id o.agent_name (max_agent_name version) ≡ true)
    × (validate_id o.application_name (max_application_name version) ≡ true)

-- The encoding of 16 bytes: 22 characters of the alphabet, without padding.
unfoldable pub IsBase64 : (Bytes → Bytes) → Type 0
IsBase64 web_safe_base64 =
    (bytes : Bytes)
    → length bytes ≡ 16
    → (length (web_safe_base64 bytes) ≡ 22) × (all_id_chars (web_safe_base64 bytes) ≡ true)

-- Where the id of the agent comes from: the input, or a uuid, which a version 4 keeps.
abbrev pub IdSource : (Bytes → Bytes) → Uuid → NameVersion → ObjectNameInput → ObjectName → Type 0
IdSource web_safe_base64 u k_v4 input o =
    (o.agent_uuid ≡ u) × (o.agent_id ≡ base64_encode_uuid web_safe_base64 o.agent_uuid)
IdSource web_safe_base64 u version input o =
    (o.agent_id ≡ input.agent_id) ⊎ (o.agent_id ≡ base64_encode_uuid web_safe_base64 u)

abbrev pub protocol_of : NameVersion → ℕ
protocol_of k_v4 = 400
protocol_of _ = 100

abbrev pub Outcome :
    (Bytes → Bytes) → Uuid → NameVersion → ObjectNameInput → Option ObjectName → Type 0
Outcome web_safe_base64 u version input none = ¬ HasRequired version input
Outcome web_safe_base64 u version input (some o) =
    HasRequired version input
    × IsIdentity version o
    × IdSource web_safe_base64 u version input o
    × (o.application_name ≡ input.application_name)
    × (protocol_version o ≡ protocol_of version)

module _ (web_safe_base64 : Bytes → Bytes) (u : Uuid) (base64 : IsBase64 web_safe_base64) where
  -- The agent id of versions 1 and 3, and the name that falls back to it.
  abbrev given_or_new : ObjectNameInput → Bytes
  given_or_new input =
      if validate_id input.agent_id agent_id_max_len
      then input.agent_id
      else base64_encode_uuid web_safe_base64 u
