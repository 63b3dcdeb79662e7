-- ===== src/Http/Proxy.antt =====
-- src/http.cpp: `parseProxyHeaderInline` and `HttpTracerUtil::setProxyHeader`. `pos` is the text
-- from there on.
pub mod Parse
pub mod Fields
use pinpoint_cpp_agent.Common.{
  ℕ, zero, suc, ◌+◌, ◌/◌, Bool, not, Option, none, some, [], ◌==◌, if◌then◌else◌, length, take,
  drop, is_empty, Bytes, codes, bytes_eq, find_if,
}
use pinpoint_cpp_agent.Common.Int.{ℤ, pos, negsuc, sub_ℕ}
use pinpoint_cpp_agent.Http.Address.{HeaderReader}

pub record ProxyHeaderValues : Type 0 where
  pub t_val : Bytes
  pub d_val : Bytes
  pub i_val : Bytes
  pub b_val : Bytes
  pub app_val : Bytes

abbrev pub no_values : ProxyHeaderValues
no_values = record { t_val = []; d_val = []; i_val = []; b_val = []; app_val = [] }

unfoldable pub set_value : Bytes → Bytes → ProxyHeaderValues → ProxyHeaderValues
set_value key val result =
    if bytes_eq key (codes "t")
    then record result { t_val = val }
    else if bytes_eq key (codes "D")
    then record result { d_val = val }
    else if bytes_eq key (codes "i")
    then record result { i_val = val }
    else if bytes_eq key (codes "b")
    then record result { b_val = val }
    else if bytes_eq key (codes "app")
    then record result { app_val = val }
    else result

abbrev pub is_space : ℕ → Bool
is_space c = c == b' '

abbrev pub is_equals : ℕ → Bool
is_equals c = c == b'='

-- The value of `key`, in front of the next space, and what is left of the text.
unfoldable pub value_step : Bytes → Bytes → ProxyHeaderValues → Bytes × ProxyHeaderValues
unfolding set_value
value_step key behind result = elim (find_if is_space behind) [
  | none ↦ ([], set_value key behind result)
  | some val_end ↦ (drop val_end behind, set_value key (take val_end behind) result)
]

-- The key, in front of the next `=`.
unfoldable pub field_step : Bytes → ProxyHeaderValues → Option (Bytes × ProxyHeaderValues)
unfolding value_step
field_step text result = elim (find_if is_equals text) [
  | none ↦ none
  | some eq_pos ↦ some (value_step (take eq_pos text) (drop (eq_pos + 1) text) result)
]

-- One round of the loop, past the spaces: none where it breaks.
unfoldable pub parse_step : Bytes → ProxyHeaderValues → Option (Bytes × ProxyHeaderValues)
unfolding field_step
parse_step value result = elim (find_if (λ c. not (is_space c)) value) [
  | none ↦ none
  | some start ↦ field_step (drop start value) result
]

-- The `while` loop, for a number of rounds.
unfoldable pub parse_loop : ℕ → Bytes → ProxyHeaderValues → ProxyHeaderValues
unfolding parse_step
parse_loop zero value result = result
parse_loop (suc rounds) value result = elim (parse_step value result) [
  | none ↦ result
  | some next ↦ parse_loop rounds next.0 next.1
]

unfoldable pub parse_proxy_header : Bytes → ProxyHeaderValues
unfolding parse_loop
parse_proxy_header value = parse_loop (length value) value no_values

-- The arguments of `AppendLongIntIntByteByteString`.
pub record ProxyAnnotation : Type 0 where
  pub received_time : ℤ
  pub code : ℕ
  pub duration_time : ℤ
  pub idle_percent : ℤ
  pub busy_percent : ℤ
  pub app : Bytes

-- `t / 1000`, which rounds towards zero
abbrev pub div_1000 : ℤ → ℤ
div_1000 (pos n) = pos (n / 1000)
div_1000 (negsuc n) = sub_ℕ 0 (suc n / 1000)

-- A number of a field: 0 where the field is missing or is no number.
abbrev pub number_or_zero : (Bytes → Option ℤ) → Bytes → ℤ
number_or_zero parse val =
    if is_empty val then pos 0 else elim (parse val) [ none ↦ pos 0 | some n ↦ n ]

-- The numbers are read by absl: `SimpleAtoi` for both widths, and `SimpleAtod` with the
-- conversion of seconds to milliseconds.
pub record NumberParsers : Type 0 where
  pub atoi64 : Bytes → Option ℤ
  pub atoi32 : Bytes → Option ℤ
  pub atod_millis : Bytes → Option ℤ

unfoldable pub apache_annotation : NumberParsers → Bytes → ProxyAnnotation
unfolding parse_proxy_header
apache_annotation parse value =
    let values = parse_proxy_header value in
    record {
      received_time = div_1000 (number_or_zero parse.atoi64 values.t_val);
      code = 3;
      duration_time = number_or_zero parse.atoi32 values.d_val;
      idle_percent = number_or_zero parse.atoi32 values.i_val;
      busy_percent = number_or_zero parse.atoi32 values.b_val;
      app = [];
    }

unfoldable pub nginx_annotation : NumberParsers → Bytes → ProxyAnnotation
unfolding parse_proxy_header
nginx_annotation parse value =
    let values = parse_proxy_header value in
    record {
      received_time = number_or_zero parse.atod_millis values.t_val;
      code = 2;
      duration_time = number_or_zero parse.atoi32 values.d_val;
      idle_percent = pos 0;
      busy_percent = pos 0;
      app = [];
    }

unfoldable pub app_annotation : NumberParsers → Bytes → ProxyAnnotation
unfolding parse_proxy_header
app_annotation parse value =
    let values = parse_proxy_header value in
    record {
      received_time = number_or_zero parse.atoi64 values.t_val;
      code = 1;
      duration_time = pos 0;
      idle_percent = pos 0;
      busy_percent = pos 0;
      app = values.app_val;
    }

-- What is appended to the annotations, if anything.
unfoldable pub set_proxy_header : NumberParsers → HeaderReader → Option ProxyAnnotation
unfolding apache_annotation nginx_annotation app_annotation
set_proxy_header parse get = elim (get (codes "Pinpoint-ProxyApache")) [
  | some apache ↦ some (apache_annotation parse apache)
  | none ↦ elim (get (codes "Pinpoint-ProxyNginx")) [
    | some nginx ↦ some (nginx_annotation parse nginx)
    | none ↦ elim (get (codes "Pinpoint-ProxyApp")) [
      | some proxy_app ↦ some (app_annotation parse proxy_app)
      | none ↦ none
    ]
  ]
]
