-- ===== src/Agent/Slices.antt =====
-- What the parts of the runtime of the agent depend on in the configuration.
use pinpoint_cpp_agent.Common.{
  ℕ, ◌≡◌, refl, Bool, true, false, not, ◌||◌, List, [], ◌∷◌, Option, none, some, arith, Bytes,
  bytes_eq, bytes_eq_iff,
}
use pinpoint_cpp_agent.Common.Int.{ℤ}
use pinpoint_cpp_agent.Config.{HttpConfig}
use pinpoint_cpp_agent.Config.Reload.{eqb_int}
use pinpoint_cpp_agent.Agent.{
  Shared, Recorders, recorder_args, unless_empty, build_recorders, AgentRuntime, texts_eq,
  header_recorder_config_changed, srv_recorders, cli_recorders,
}

-- A part without its identity.
abbrev pub nameless : {A : Type 0} → Option (Shared A) → Option (Shared A)
nameless none = none
nameless (some x) = some (record x { made_in = 0 })

abbrev pub nameless_recorders : Recorders → Recorders
nameless_recorders r = record {
  request = nameless r.request;
  response = nameless r.response;
  cookie = nameless r.cookie;
}

-- What the parts of the runtime are made of: all of it but their identity. What they have counted
-- since they were made is no part of the model.
abbrev pub construction : {Double : Type 0} → AgentRuntime Double → AgentRuntime Double
construction rt = record {
  config = rt.config;
  sampler = nameless rt.sampler;
  http_url_filter = nameless rt.http_url_filter;
  http_method_filter = nameless rt.http_method_filter;
  http_status_errors = nameless rt.http_status_errors;
  http_srv_header_recorder = nameless_recorders rt.http_srv_header_recorder;
  http_cli_header_recorder = nameless_recorders rt.http_cli_header_recorder;
}

pub or_false : (a b : Bool) → (a || b) ≡ false → (a ≡ false) × (b ≡ false)
or_false a b h = (ground arith, ground arith)

pub negation_false : (a : Bool) → not a ≡ false → a ≡ true
negation_false a h = ground arith

pub int_eq : (a b : ℤ) → not (eqb_int a b) ≡ false → a ≡ b
int_eq a b h = ground arith

texts_eq-eq : (k l : List Bytes) → texts_eq k l ≡ true → k ≡ l
texts_eq-eq [] [] h = refl
texts_eq-eq [] (s ∷ l) h = absurd (ground arith)
texts_eq-eq (r ∷ k) [] h = absurd (ground arith)
texts_eq-eq (r ∷ k) (s ∷ l) h =
    let first : bytes_eq r s ≡ true = ground arith in
    let rest : texts_eq k l ≡ true = ground arith in
    let e = (bytes_eq_iff r s).0 first in let f = texts_eq-eq k l rest in cc

pub texts_same : (k l : List Bytes) → not (texts_eq k l) ≡ false → k ≡ l
texts_same k l h = texts_eq-eq k l (negation_false (texts_eq k l) h)

pub texts_refl : (k : List Bytes) → not (texts_eq k k) ≡ false
texts_refl [] = refl
texts_refl (r ∷ k) =
    let first = (bytes_eq_iff r r).1 refl in let rest = texts_refl k in ground arith

pub int_refl : (n : ℤ) → not (eqb_int n n) ≡ false
int_refl n = ground arith

pub header_slices :
    (a b : HttpConfig)
    → header_recorder_config_changed a b ≡ false
    → (n : ℕ) → (srv_recorders n a ≡ srv_recorders n b) × (cli_recorders n a ≡ cli_recorders n b)
header_slices a b h n =
    let (e1, t1) =
      or_false (not (texts_eq a.server.rec_request_header b.server.rec_request_header)) _ h in
    let (e2, t2) = or_false _ _ t1 in
    let (e3, t3) = or_false _ _ t2 in
    let (e4, t4) = or_false _ _ t3 in
    let (e5, e6) = or_false _ _ t4 in
    let f1 = texts_same a.server.rec_request_header b.server.rec_request_header e1 in
    let f2 = texts_same a.server.rec_response_header b.server.rec_response_header e2 in
    let f3 = texts_same a.server.rec_request_cookie b.server.rec_request_cookie e3 in
    let f4 = texts_same a.client.rec_request_header b.client.rec_request_header e4 in
    let f5 = texts_same a.client.rec_response_header b.client.rec_response_header e5 in
    let f6 = texts_same a.client.rec_request_cookie b.client.rec_request_cookie e6 in
    (rw (f1, f2, f3) refl, rw (f4, f5, f6) refl)

pub nameless-unless_empty :
    {A : Type 0} (n : ℕ) (v : List Bytes) (args : A)
    → nameless (unless_empty n v args) ≡ nameless (unless_empty 0 v args)
nameless-unless_empty n [] args = refl
nameless-unless_empty n (s ∷ l) args = refl

pub nameless_recorders-build :
    (n : ℕ) (k l m : List Bytes)
    → nameless_recorders (build_recorders n k l m) ≡ nameless_recorders (build_recorders 0 k l m)
nameless_recorders-build n k l m =
    rw
      (
        nameless-unless_empty n k (recorder_args 47 k),
        nameless-unless_empty n l (recorder_args 55 l),
        nameless-unless_empty n m (recorder_args 45 m),
      )
      refl
