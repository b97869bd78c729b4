-- ===== src/Agent/RelayClient/Commands.antt =====
-- What the agent answers to a command.
use steerloop.Common.{
  ℕ, Text, text, same, same→eq, same_refl, Option, some, true, false, not, is_some, Bool-cases, ◌⊎◌,
  inl, inr, arith, ◌≡◌, ◌≢◌, refl, at_most,
}
use steerloop.Protocol.Schema.{CommandEnvelope, CommandResult}
use steerloop.Agent.RelayClient.{
  RelayClient, result, on_command, does, publish, command_result, handle_command,
}

-- Every command gets exactly one result, under its own id and the agent's host. The command is run if
-- and only if it has not expired and names this host, and the result then tells whether it was run
-- without an error; otherwise nothing is run, and the result is an error.
pub handle_command_answers :
    (date_parse : Text → Option ℕ) (now : ℕ) (outcome : Option Text) (k : CommandEnvelope)
    (c : RelayClient)
    → let c' = handle_command date_parse now outcome k c in
      (r : CommandResult) × (r.command_id ≡ k.command_id)
      × (r.host_id ≡ c.host_id)
      × ((at_most (date_parse k.expires_at) now ≡ false)
            × (k.host_id ≡ c.host_id)
            × (r.ok ≡ not (is_some outcome))
            × (c' ≡ publish (result r) (does (on_command k) c))
          ⊎ ((at_most (date_parse k.expires_at) now ≡ true) ⊎ (k.host_id ≢ c.host_id))
            × (r.ok ≡ false)
            × (c' ≡ publish (result r) c))
unfolding handle_command
handle_command_answers date_parse now outcome k c =
    elim (Bool-cases (at_most (date_parse k.expires_at) now)) [
      | inl over ↦ (
        command_result date_parse c k (some (text "Command has expired")),
        refl,
        refl,
        inr (inl over, refl, rw over refl),
      )
      | inr live ↦ elim (Bool-cases (same k.host_id c.host_id)) [
        | inl own ↦ (
          command_result date_parse c k outcome,
          refl,
          refl,
          inl (live, same→eq k.host_id c.host_id own, refl, rw (live, own) refl),
        )
        | inr foreign ↦ (
          command_result date_parse c k (some (text "Host identity mismatch")),
          refl,
          refl,
          inr (
            inr (λ e. ground (arith, foreign, e, same_refl c.host_id)),
            refl,
            rw (live, foreign) refl,
          ),
        )
      ]
    ]
