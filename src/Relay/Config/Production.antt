-- ===== src/Relay/Config/Production.antt =====
-- What a loaded configuration of the relay is good for.
use steerloop.Common.{
  ℕ, ◌*◌, ◌≤◌, Text, same, same→eq, Option, none, some, true, false, ◌&&◌, is_some, leb, ltb, ◌==◌,
  Bool-cases, inl, inr, length, arith, ◌≡◌, refl, ap, subst,
}
use steerloop.Common.Effects.{Outcome, ok, throws}
use steerloop.Relay.Config.{
  TokenVariables, RelayConfig, RelayEnvironment, bind, is_production, configured_token,
  checked_token, load_token, parse_positive_integer, parse_int, parse_boolean, load_relay_config,
  uses_development_token, development_token, positive_or, rounded,
}

bind_ok :
    {A B : Type 0} (o : Outcome A) (f : A → Outcome B) (b : B)
    → bind o f ≡ ok b
    → (a : A) × (o ≡ ok a) × (f a ≡ ok b)
bind_ok (ok a) f b h = (a, refl, h)
bind_ok (throws e) f b h = absurd (cc h)

ok_inj : {A : Type 0} (a b : A) → ok a ≡ ok b → a ≡ b
ok_inj a b h = cc

positive_or_lem :
    (round : ℕ → Option ℕ) (name : Text) (o : Option ℕ) (n : ℕ)
    → positive_or round name o ≡ ok n
    → 1 ≤ n
positive_or_lem round name none n h = absurd (cc h)
positive_or_lem round name (some m) n h = elim (Bool-cases (leb m 0)) [
  | inl no_more ↦ absurd (cc (rw no_more at h))
  | inr more ↦ let e : m ≡ n = ok_inj m n (rw more at h) in ground (arith, more, e)
]

parse_positive_integer_lem :
    (round : ℕ → Option ℕ) (v : Option Text) (fallback : ℕ) (name : Text) (n : ℕ)
    → 1 ≤ fallback
    → parse_positive_integer round v fallback name ≡ ok n
    → 1 ≤ n
unfolding parse_positive_integer
parse_positive_integer_lem round none fallback name n h e =
    let same_n = ok_inj fallback n e in omega (arith, h, same_n)
parse_positive_integer_lem round (some s) fallback name n h e =
    positive_or_lem round name (rounded round (parse_int s)) n e

checked_token-long :
    (read_file : Text → Outcome Text) (t : Option Text) (s : Text)
    → checked_token read_file true t ≡ ok s
    → 32 ≤ length s
checked_token-long read_file none s h = absurd (cc h)
checked_token-long read_file (some t) s h = elim (Bool-cases (length t == 0)) [
  | inl nothing ↦ absurd (cc (rw nothing at h))
  | inr something ↦ elim (Bool-cases (ltb (length t) 32)) [
    | inl short ↦ absurd (cc (rw (something, short) at h))
    | inr long ↦
        let e : t ≡ s = ok_inj t s (rw (something, long) at h) in
        subst (λ x. 32 ≤ length x) e (ground (arith, long))
  ]
]

load_token-long :
    (read_file : Text → Outcome Text) (v : TokenVariables) (s : Text)
    → is_production v.node_env ≡ true
    → load_token read_file v ≡ ok s
    → 32 ≤ length s
unfolding load_token
load_token-long read_file v s production h =
    elim (Bool-cases (is_some v.steerloop_token && is_some v.steerloop_token_file)) [
      | inl both ↦ absurd (cc (rw both at h))
      | inr one ↦
          let t =
            bind_ok (configured_token read_file v v.steerloop_token_file)
              (checked_token read_file (is_production v.node_env)) s (rw one at h) in
          checked_token-long read_file t.0 s (rw production at t.2)
    ]

not_development : (s : Text) → 32 ≤ length s → same s development_token ≡ false
not_development s h = elim (Bool-cases (same s development_token)) [
  | inl equal ↦
      let e : length s ≡ 19 = ap (λ t. length t) (same→eq s development_token equal) in
      absurd (omega (arith, h, e))
  | inr other ↦ other
]

-- Where a relay's environment says production and a configuration is loaded from it, the token has at
-- least 32 units and is not the one for development; whatever the environment says, the port, the time
-- to log in, the length of the history and the size of a payload are positive.
pub load_relay_config_lem :
    (round : ℕ → Option ℕ) (read_file : Text → Outcome Text) (e : RelayEnvironment)
    (c : RelayConfig)
    → load_relay_config round read_file e ≡ ok c
    → (is_production e.token_variables.node_env ≡ true
        → (32 ≤ length c.token) × (uses_development_token c ≡ false))
      × (1 ≤ c.port)
      × (1 ≤ c.auth_timeout_ms)
      × (1 ≤ c.max_history)
      × (1 ≤ c.max_payload_bytes)
unfolding load_relay_config uses_development_token
load_relay_config_lem round read_file e c h =
    let (token, token_ok, h1) = bind_ok (load_token read_file e.token_variables) _ c h in
    let (port, port_ok, h2) = bind_ok (parse_positive_integer round e.relay_port 8787 _) _ c h1 in
    let (wait, wait_ok, h3) =
      bind_ok (parse_positive_integer round e.auth_timeout_ms 5000 _) _ c h2 in
    let (events, events_ok, h4) =
      bind_ok (parse_positive_integer round e.max_history 1000 _) _ c h3 in
    let (size, size_ok, h5) =
      bind_ok (parse_positive_integer round e.max_payload_bytes (512 * 1024) _) _ c h4 in
    let (sync, sync_ok, h6) = bind_ok (parse_boolean e.journal_sync true _) _ c h5 in
    let made = ok_inj _ c h6 in
    let same_token : token ≡ c.token = ap (λ x. x.token) made in
    (
      (λ production.
          let long =
            subst (λ x. 32 ≤ length x) same_token
              (load_token-long read_file e.token_variables token production token_ok) in
          (long, not_development c.token long)),
      subst (λ n. 1 ≤ n) (ap (λ x. x.port) made)
          (parse_positive_integer_lem round e.relay_port 8787 _ port (omega arith) port_ok),
      subst (λ n. 1 ≤ n) (ap (λ x. x.auth_timeout_ms) made)
          (parse_positive_integer_lem round e.auth_timeout_ms 5000 _ wait (omega arith) wait_ok),
      subst (λ n. 1 ≤ n) (ap (λ x. x.max_history) made)
          (parse_positive_integer_lem round e.max_history 1000 _ events (omega arith) events_ok),
      subst (λ n. 1 ≤ n) (ap (λ x. x.max_payload_bytes) made)
          (parse_positive_integer_lem round e.max_payload_bytes (512 * 1024) _ size (omega arith)
            size_ok),
    )
