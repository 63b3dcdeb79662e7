-- ===== src/Config/Reload/Retain.antt =====
-- What a reload keeps of the running configuration.
use pinpoint_cpp_agent.Common.{
  ℕ, ◌≡◌, ◌↔◌, refl, sym, ap, ◌∙◌, Bool, true, false, ◌&&◌, some, ◌==◌, ==_iff, arith, Bytes, List,
  [], ◌∷◌, All, bytes_eq, bytes_eq_iff,
}
use pinpoint_cpp_agent.Common.Int.{ℤ}
use pinpoint_cpp_agent.Config.{Config, GrpcChannelOptions, GrpcConfig}
use pinpoint_cpp_agent.Config.Reload.{
  eqb_int, eqb_bool, check, all_true, channel_tests, ssl_tests, reload_tests, same_grpc_channel,
  same_grpc_config, is_reloadable, retain_non_reloadable_from,
}

eqb_int_iff : (a b : ℤ) → (eqb_int a b ≡ true) ↔ (a ≡ b)
eqb_int_iff a b = ground arith

eqb_bool_iff : (a b : Bool) → (eqb_bool a b ≡ true) ↔ (a ≡ b)
eqb_bool_iff a b = ground arith

and_true : (a b : Bool) → (a && b) ≡ true → (a ≡ true) × (b ≡ true)
and_true true b h = (refl, h)
and_true false b h = absurd (ground arith)

and_intro : (a b : Bool) → a ≡ true → b ≡ true → (a && b) ≡ true
and_intro a b h k = rw (h, k) refl

all_true-All : (l : List Bool) → all_true l ≡ true → All (λ b. b ≡ true) l
all_true-All [] h = tt
all_true-All (b ∷ l) h =
    let (first, rest) = and_true b (all_true l) h in (first, all_true-All l rest)

All-all_true : (l : List Bool) → All (λ b. b ≡ true) l → all_true l ≡ true
All-all_true [] h = refl
All-all_true (b ∷ l) (first, rest) = and_intro b (all_true l) first (All-all_true l rest)

same_channel : (a b : GrpcChannelOptions) → same_grpc_channel a b ≡ true → a ≡ b
same_channel a b h =
    let (e1, (e2, (e3, (e4, (e5, (e6, (e7, (e8, u)))))))) = all_true-All (channel_tests a b) h in
    let f1 = (eqb_bool_iff a.ssl_enable b.ssl_enable).0 e1 in
    let f2 = (eqb_int_iff a.keepalive_time_ms b.keepalive_time_ms).0 e2 in
    let f3 = (eqb_int_iff a.keepalive_timeout_ms b.keepalive_timeout_ms).0 e3 in
    let f4 =
      (eqb_bool_iff a.keepalive_permit_without_calls b.keepalive_permit_without_calls).0 e4 in
    let f5 = (eqb_int_iff a.max_send_message_size b.max_send_message_size).0 e5 in
    let f6 = (eqb_int_iff a.max_receive_message_size b.max_receive_message_size).0 e6 in
    let f7 = (eqb_int_iff a.sender_queue_size b.sender_queue_size).0 e7 in
    let f8 = (eqb_int_iff a.channel_executor_queue_size b.channel_executor_queue_size).0 e8 in cc

int_refl : (n : ℤ) → eqb_int n n ≡ true
int_refl n = (eqb_int_iff n n).1 refl

bool_refl : (b : Bool) → eqb_bool b b ≡ true
bool_refl b = (eqb_bool_iff b b).1 refl

bytes_refl : (s : Bytes) → bytes_eq s s ≡ true
bytes_refl s = (bytes_eq_iff s s).1 refl

same_grpc_config_refl : (a : GrpcConfig) → same_grpc_config a a ≡ true
same_grpc_config_refl a =
    and_intro (all_true (ssl_tests a.ssl a.ssl)) (same_grpc_channel a.channel a.channel)
      (All-all_true (ssl_tests a.ssl a.ssl)
        (bytes_refl a.ssl.trust_cert_file_path, (bytes_refl a.ssl.root_cert_file_path, tt)))
      (All-all_true (channel_tests a.channel a.channel) (
        bool_refl a.channel.ssl_enable,
        (
          int_refl a.channel.keepalive_time_ms,
          (
            int_refl a.channel.keepalive_timeout_ms,
            (
              bool_refl a.channel.keepalive_permit_without_calls,
              (
                int_refl a.channel.max_send_message_size,
                (
                  int_refl a.channel.max_receive_message_size,
                  (
                    int_refl a.channel.sender_queue_size,
                    (int_refl a.channel.channel_executor_queue_size, tt),
                  ),
                ),
              ),
            ),
          ),
        ),
      ))

same_grpc : (a b : GrpcConfig) → same_grpc_config a b ≡ true → a ≡ b
same_grpc a b h =
    let (s, c) =
      and_true (all_true (ssl_tests a.ssl b.ssl)) (same_grpc_channel a.channel b.channel) h in
    let (e1, (e2, u)) = all_true-All (ssl_tests a.ssl b.ssl) s in
    let f1 = (bytes_eq_iff a.ssl.trust_cert_file_path b.ssl.trust_cert_file_path).0 e1 in
    let f2 = (bytes_eq_iff a.ssl.root_cert_file_path b.ssl.root_cert_file_path).0 e2 in
    let channels = same_channel a.channel b.channel c in cc

nat_refl : (n : ℕ) → (n == n) ≡ true
nat_refl n = (==_iff n n).1 refl

module _ {Double : Type 0} (c old : Config Double) where
  retain-IsReloadable : is_reloadable (retain_non_reloadable_from c (some old)) (some old) ≡ true
  retain-IsReloadable =
      let c' = retain_non_reloadable_from c (some old) in
      and_intro (all_true (reload_tests c' old)) (same_grpc_config old.grpc old.grpc)
        (All-all_true (reload_tests c' old) (
          bytes_refl old.app_name,
          (
            int_refl old.app_type,
            (
              bytes_refl old.agent_id,
              (
                bytes_refl old.agent_name,
                (
                  bytes_refl old.uid_version,
                  (
                    bytes_refl old.service_name,
                    (
                      bytes_refl old.api_key,
                      (
                        nat_refl old.object_name_version,
                        (
                          bytes_refl old.collector.host,
                          (
                            int_refl old.collector.agent_port,
                            (
                              int_refl old.collector.span_port,
                              (int_refl old.collector.stat_port, tt),
                            ),
                          ),
                        ),
                      ),
                    ),
                  ),
                ),
              ),
            ),
          ),
        ))
        (same_grpc_config_refl old.grpc)

  retained_same :
      is_reloadable c (some old) ≡ true
      → retain_non_reloadable_from c (some old)
        ≡ record c { identity_resolved = old.identity_resolved }
  retained_same h =
      let (t, g) = and_true (all_true (reload_tests c old)) (same_grpc_config c.grpc old.grpc) h in
      let (e1, (e2, (e3, (e4, (e5, (e6, (e7, (e8, (e9, (e10, (e11, (e12, u)))))))))))) =
        all_true-All (reload_tests c old) t in
      let f1 = (bytes_eq_iff c.app_name old.app_name).0 e1 in
      let f2 = (eqb_int_iff c.app_type old.app_type).0 e2 in
      let f3 = (bytes_eq_iff c.agent_id old.agent_id).0 e3 in
      let f4 = (bytes_eq_iff c.agent_name old.agent_name).0 e4 in
      let f5 = (bytes_eq_iff c.uid_version old.uid_version).0 e5 in
      let f6 = (bytes_eq_iff c.service_name old.service_name).0 e6 in
      let f7 = (bytes_eq_iff c.api_key old.api_key).0 e7 in
      let f8 = (==_iff c.object_name_version old.object_name_version).0 e8 in
      let f9 = (bytes_eq_iff c.collector.host old.collector.host).0 e9 in
      let f10 = (eqb_int_iff c.collector.agent_port old.collector.agent_port).0 e10 in
      let f11 = (eqb_int_iff c.collector.span_port old.collector.span_port).0 e11 in
      let f12 = (eqb_int_iff c.collector.stat_port old.collector.stat_port).0 e12 in
      let f13 = same_grpc c.grpc old.grpc g in cc

  -- A configuration that has taken over the settings of the running one that cannot change is
  -- reloadable against it, and is accepted exactly when the running one is. And a new
  -- configuration is reloadable exactly when taking them over changes nothing but the mark that
  -- the identity is resolved.
  pub retain_non_reloadable_from_lem :
      (is_reloadable (retain_non_reloadable_from c (some old)) (some old) ≡ true)
      × (check (retain_non_reloadable_from c (some old)) ≡ check old)
      × ((is_reloadable c (some old) ≡ true) ↔ (
          retain_non_reloadable_from c (some old)
          ≡ record c { identity_resolved = old.identity_resolved }))
  retain_non_reloadable_from_lem = (
    retain-IsReloadable,
    refl,
    (retained_same, λ e. ap (λ x. is_reloadable x (some old)) (sym e) ∙ retain-IsReloadable),
  )
