-- ===== src/Agent/Codex/Tests.antt =====
-- The Codex adapter on concrete requests, decisions and prompts, and each theorem at such an input.
use steerloop.Common.{
  ℕ, Text, text, text_dec, List, [], ◌∷◌, ◌++◌, Option, none, some, Bool, true, ◌⊎◌, ◌≡◌, refl,
  arith, length, lookup, insert, remove, slice_last,
}
use steerloop.Common.Json.{num, Fields, end, member}
use steerloop.Common.Effects.{ok, throws}
use steerloop.Protocol.Schema.{
  ApprovalKind, ApprovalDecision, ApprovalResolve, NormalizedEvent, approval_requested,
  EventEnvelope,
}
use steerloop.Protocol.View.{create_empty_state}
use steerloop.Protocol.State.{includes, host_restarted, is_dropped, reduce_all, reduce_events}
use steerloop.Agent.AppServer.{respond, write}
use steerloop.Agent.Codex.Values.{Show, limit_codex_string}
use steerloop.Agent.Codex.Adapter.{
  RequestKind, PendingCodexApproval, CodexAdapter, new_adapter, Replies, emit, resolve_approval,
}
use steerloop.Agent.Codex.Requests.{Asked}
use steerloop.Agent.Codex.Approvals.{Refused, Answered, answer_once}
use steerloop.Agent.Codex.Integrity.{asked_request}
use steerloop.Agent.Codex.Waiting.{waiting, send_all}
use steerloop.Agent.Codex.Prompts.{start_calls, complete_all, prompts_in_order}

codex : Unit {0}
unfolding text_dec lookup insert remove slice_last member includes host_restarted is_dropped
    create_empty_state reduce_all reduce_events limit_codex_string emit respond write
    resolve_approval
codex = tt

abbrev rt : Show
rt = record { show = λ j. []; stringify = λ j. []; decimal = λ n. [] }

abbrev same_text : Text → Text
same_text t = t

abbrev iso : ℕ → Text
iso n = n ∷ []

abbrev clock : Text → Option ℕ
clock t = some (length t)

abbrev takes_all : Option Text → NormalizedEvent → Bool
takes_all i e = true

-- Started, and with the process running.
abbrev running : CodexAdapter
running = record new_adapter {
  context = some (text "h");
  client = record new_adapter.client { running = true };
}

abbrev approval : PendingCodexApproval
approval = record {
  approval_id = text "a";
  digest = text "d";
  expires_at = 100;
  request_id = num (text "7");
  kind = RequestKind.command;
  requested_permissions = none;
  session_id = text "s";
}

abbrev asked_adapter : CodexAdapter
asked_adapter = record running { pending_approvals = (text "a", approval) ∷ [] }

abbrev decision : ApprovalResolve
decision = record {
  approval_id = text "a";
  request_digest = text "d";
  decision = ApprovalDecision.decline;
  authorization = none;
}

decision_tests :
    ((resolve_approval takes_all iso 99 (text "s") decision asked_adapter).0.pending_approvals ≡ [])
    × ((resolve_approval takes_all iso 99 (text "t") decision asked_adapter).1
        ≡ throws (text "Approval session mismatch"))
    × ((resolve_approval takes_all iso 100 (text "s") decision asked_adapter).1
        ≡ throws (text "Approval request has expired"))
unfolding codex
decision_tests = (refl, refl, refl)

answer_once_example :
    let t = resolve_approval takes_all iso 99 (text "s") decision asked_adapter in
    Refused 99 decision asked_adapter t
    ⊎ Answered takes_all iso 99 (text "s") decision asked_adapter t
      × (resolve_approval takes_all iso 99 (text "s") decision t.0
          ≡ (t.0, throws (text "Approval is no longer pending")))
answer_once_example =
    answer_once takes_all iso 99 (text "s") decision asked_adapter (text "h") refl refl 99
      (text "s") decision (refl, tt) refl

abbrev running_turn : CodexAdapter
running_turn = record running {
  active_turns = (text "s", text "t") ∷ [];
  loaded_threads = (text "s", tt) ∷ [];
}

abbrev replies : Replies
replies = record { resume = ok none; turn = ok none }

prompt_facts :
    (lookup (text "s") running_turn.loaded_threads ≡ some tt)
    × (lookup (text "s") running_turn.active_turns ≡ some (text "t"))
    × (waiting (text "s") running_turn ≡ [])
unfolding codex
prompt_facts = (refl, refl, refl)

abbrev completions : List (Fields × Replies)
completions = (end, replies) ∷ (end, replies) ∷ []

prompts_in_order_example :
    let ps = text "p" ∷ text "q" ∷ [] in
    let (t, o) =
      complete_all rt takes_all
        (text "s")
        completions
        (send_all (text "s") replies ps running_turn) in
    (t.client.written ≡ [] ++ start_calls 1 (text "s") ps)
    × (waiting (text "s") t ≡ [])
    × (o ≡ ok tt)
prompts_in_order_example =
    prompts_in_order rt takes_all (text "s") (text "t") replies (text "p" ∷ text "q" ∷ [])
      completions running_turn
      (record { host = text "h"; started = refl; running = refl; loaded = prompt_facts.0 })
      prompt_facts.1 prompt_facts.2 (omega arith) ((refl, (none, refl)), ((refl, (none, refl)), tt))
      refl

abbrev wanted : Asked
wanted = record {
  kind = ApprovalKind.command;
  title = text "t";
  reason = none;
  command = some (text "ls");
  cwd = none;
  grant_root = none;
  network_host = none;
  network_protocol = none;
  requested_permissions = none;
}

abbrev asking : EventEnvelope
asking = record {
  event_id = text "e";
  sequence = 1;
  host_id = text "h";
  session_id = some (text "s");
  emitted_at = text "1";
  event = approval_requested (asked_request same_text same_text iso 0 (text "a") wanted);
}
