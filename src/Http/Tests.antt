-- ===== src/Http/Tests.antt =====
-- The HTTP helpers on concrete inputs.
use mathlib.Core.Logic.{◌↔◌}
use pinpoint_cpp_agent.Common.{
  ◌≡◌, refl, true, false, some, none, [], ◌∷◌, codes, List, Bytes, find_if, find_last_if, bytes_eq,
  if◌then◌else◌, arith,
}
use pinpoint_cpp_agent.Common.Int.{pos}
use pinpoint_cpp_agent.Http.Filter.{url_filter, is_filtered}
use pinpoint_cpp_agent.Http.Filter.Glob.Sound.{Described, is_filtered-Described}
use pinpoint_cpp_agent.Http.Address.{HeaderReader, get_remote_addr}
use pinpoint_cpp_agent.Http.Address.Trim.{ends}
use pinpoint_cpp_agent.Http.Address.Remote.{get_remote_addr-forwarded, get_remote_addr-direct, port}
use pinpoint_cpp_agent.Http.Proxy.{no_values, parse_proxy_header, parse_loop}
use pinpoint_cpp_agent.Http.Proxy.Fields.{Field, values_of, parse_proxy_header-print_fields}
use pinpoint_cpp_agent.Http.Proxy.Parse.{Ends, parse_loop-Ends}
use pinpoint_cpp_agent.Http.Status.{
  status_errors, is_error_code, is_method_filtered, header_recorder, record_header,
}
use pinpoint_cpp_agent.Http.Status.Methods.{Listed, is_method_filtered-Listed}

abbrev patterns : List Bytes
patterns = codes "/health" ∷ codes "/static/**" ∷ codes "/api/*" ∷ codes "/a/**/x?.js" ∷ []

filters :
    (is_filtered (url_filter patterns) (codes "/api/users") ≡ true)
    × (is_filtered (url_filter patterns) (codes "/api/users/1") ≡ false)
    × (is_filtered (url_filter patterns) (codes "/a/b/c/x1.js") ≡ true)
    × (is_filtered (url_filter patterns) (codes "/a/x.js") ≡ false)
    × (is_filtered (url_filter patterns) (codes "/static/") ≡ true)
unfolding is_filtered url_filter
filters = (refl, refl, refl, refl, refl)

is_filtered-Described_example :
    (is_filtered (url_filter patterns) (codes "/a/b/x1.js") ≡ true)
    ↔ Described patterns (codes "/a/b/x1.js")
is_filtered-Described_example = is_filtered-Described patterns (codes "/a/b/x1.js")

abbrev forwarded : HeaderReader
forwarded name =
    if bytes_eq name (codes "X-Forwarded-For") then some (codes " 10.0.0.1, 10.0.0.2") else none

abbrev no_headers : HeaderReader
no_headers name = none

addresses :
    (get_remote_addr forwarded (codes "1.2.3.4:80") ≡ codes "10.0.0.1")
    × (get_remote_addr no_headers (codes "1.2.3.4:80") ≡ codes "1.2.3.4")
    × (get_remote_addr no_headers (codes "[::1]:80") ≡ codes "[::1]")
    × (get_remote_addr no_headers (codes "::1") ≡ codes "::1")
unfolding get_remote_addr find_if find_last_if
addresses = (refl, refl, refl, refl)

get_remote_addr-forwarded_example :
    get_remote_addr forwarded (codes "1.2.3.4:80") ≡ codes "10.0.0.1"
get_remote_addr-forwarded_example =
    get_remote_addr-forwarded forwarded (codes "1.2.3.4:80") (codes " ") (codes "10.0.0.1") []
      (some (codes " 10.0.0.2")) refl (refl, tt) tt (ends b'1' (codes "0.0.0.") refl refl)
      (refl, (refl, (refl, (refl, (refl, (refl, (refl, (refl, tt))))))))

get_remote_addr-direct_example : get_remote_addr no_headers (codes "1.2.3.4:80") ≡ codes "1.2.3.4"
get_remote_addr-direct_example =
    get_remote_addr-direct no_headers (codes "1.2.3.4:80") (codes "1.2.3.4") refl refl (
      port (codes "80") refl (refl, (refl, (refl, (refl, (refl, (refl, (refl, tt)))))))
        (refl, (refl, tt)))

abbrev fields : List Field
fields = (codes "t", codes "12") ∷ (codes "D", codes "7") ∷ []

parsed :
    parse_proxy_header (codes "t=12  D=7")
    ≡ record no_values { t_val = codes "12"; d_val = codes "7" }
unfolding parse_proxy_header find_if
parsed = refl

parse_proxy_header-print_fields_example :
    parse_proxy_header (codes "t=12 D=7") ≡ values_of fields no_values
parse_proxy_header-print_fields_example =
    parse_proxy_header-print_fields fields
      ((refl, (refl, tt), (refl, (refl, tt))), ((refl, (refl, tt), (refl, tt)), tt))

parse_loop-Ends_example :
    Ends (codes "t=12 D=7") no_values (parse_loop 8 (codes "t=12 D=7") no_values)
parse_loop-Ends_example = parse_loop-Ends 8 (codes "t=12 D=7") no_values (omega arith)

statuses :
    (is_error_code (status_errors (λ s. some (pos 418)) (codes "5xX" ∷ codes "418" ∷ [])) (pos 503)
      ≡ true)
    × (is_error_code (status_errors (λ s. some (pos 418)) (codes "418" ∷ [])) (pos 418) ≡ true)
    × (is_error_code (status_errors (λ s. none) (codes "4xx" ∷ codes "?" ∷ [])) (pos 500) ≡ false)
unfolding is_error_code status_errors
statuses = (refl, refl, refl)

is_method_filtered-Listed_example :
    (is_method_filtered (codes "put" ∷ []) (codes "PUT") ≡ true)
    ↔ Listed (codes "put" ∷ []) (codes "PUT")
is_method_filtered-Listed_example = is_method_filtered-Listed (codes "put" ∷ []) (codes "PUT")

recorded :
    record_header
      (header_recorder 45 (codes "headers-all" ∷ []))
      (record { get = no_headers; each = (codes "Host", codes "a") ∷ [] })
    ≡ (45, codes "Host", codes "a") ∷ []
unfolding record_header header_recorder
recorded = refl
