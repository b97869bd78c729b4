-- ===== src/Protocol/State/Writes.antt =====
-- packages/protocol/src/state.ts: the well-formedness of the view, and each kind of write to it.
use steerloop.Common.{
  ◌≤◌, Text, [], ◌∷◌, Bool, not, is_some, subst, sym, ◌≡◌, insert, length, Assoc, Distinct, Every,
  Keyed, insert-Distinct, insert-Every, sweep, sweep-Distinct, sweep-Every,
}
use steerloop.Protocol.View.{
  HostView, SessionView, ApprovalView, ControlPlaneState, max_activities, max_message,
  max_event_ids,
}
use steerloop.Protocol.State.{is_pending}

-- A session stands under its id, with a bounded history and message.
pub record IsSession (k : Text) (v : SessionView) : Type 0 where
  pub id : v.id ≡ k
  pub activities : length v.activities ≤ max_activities
  pub message : length v.latest_message ≤ max_message

-- An approval stands under its id, and has a time of resolution exactly when it is not pending.
pub record IsApproval (k : Text) (a : ApprovalView) : Type 0 where
  pub id : a.id ≡ k
  pub resolution : is_some a.resolved_at ≡ not (is_pending a.status)

abbrev pub IsHost : Text → HostView → Type 0
IsHost k h = h.id ≡ k

pub record WellFormed (s : ControlPlaneState) : Type 0 where
  pub hosts : Every IsHost s.hosts
  pub hosts_distinct : Distinct s.hosts
  pub sessions : Every IsSession s.sessions
  pub sessions_distinct : Distinct s.sessions
  pub approvals : Every IsApproval s.approvals
  pub approvals_distinct : Distinct s.approvals
  pub ids : length s.recent_event_ids ≤ max_event_ids

pub sessions-Keyed : (m : Assoc SessionView) → Every IsSession m → Keyed (λ v. v.id) m
sessions-Keyed [] h = tt
sessions-Keyed ((k, v) ∷ m) h = (h.0.id, sessions-Keyed m h.1)

pub approvals-Keyed : (m : Assoc ApprovalView) → Every IsApproval m → Keyed (λ a. a.id) m
approvals-Keyed [] h = tt
approvals-Keyed ((k, v) ∷ m) h = (h.0.id, approvals-Keyed m h.1)

-- The three writes that the handlers make.
pub put_host-WellFormed :
    (s : ControlPlaneState) (k : Text) (h : HostView)
    → h.id ≡ k
    → WellFormed s
    → WellFormed (record s { hosts = insert k h s.hosts })
put_host-WellFormed s k h e w = record {
  hosts = insert-Every IsHost k h s.hosts e w.hosts;
  hosts_distinct = insert-Distinct k h s.hosts w.hosts_distinct;
  sessions = w.sessions;
  sessions_distinct = w.sessions_distinct;
  approvals = w.approvals;
  approvals_distinct = w.approvals_distinct;
  ids = w.ids;
}

pub put_session-WellFormed :
    (s : ControlPlaneState) (k : Text) (v : SessionView)
    → IsSession k v
    → WellFormed s
    → WellFormed (record s { sessions = insert k v s.sessions })
put_session-WellFormed s k v e w = record {
  hosts = w.hosts;
  hosts_distinct = w.hosts_distinct;
  sessions = insert-Every IsSession k v s.sessions e w.sessions;
  sessions_distinct = insert-Distinct k v s.sessions w.sessions_distinct;
  approvals = w.approvals;
  approvals_distinct = w.approvals_distinct;
  ids = w.ids;
}

pub put_approval-WellFormed :
    (s : ControlPlaneState) (k : Text) (a : ApprovalView)
    → IsApproval k a
    → WellFormed s
    → WellFormed (record s { approvals = insert k a s.approvals })
put_approval-WellFormed s k a e w = record {
  hosts = w.hosts;
  hosts_distinct = w.hosts_distinct;
  sessions = w.sessions;
  sessions_distinct = w.sessions_distinct;
  approvals = insert-Every IsApproval k a s.approvals e w.approvals;
  approvals_distinct = insert-Distinct k a s.approvals w.approvals_distinct;
  ids = w.ids;
}

-- A sweep over the sessions that keeps their ids, histories and messages.
pub sweep_sessions-WellFormed :
    (s : ControlPlaneState) (test : SessionView → Bool) (change : SessionView → SessionView)
    → ((k : Text) (v : SessionView) → IsSession k v → IsSession k (change v))
    → WellFormed s
    → WellFormed (record s { sessions = sweep (λ v. v.id) test change s.sessions })
sweep_sessions-WellFormed s test change keep w = record {
  hosts = w.hosts;
  hosts_distinct = w.hosts_distinct;
  sessions =
      sweep-Every (λ v. v.id) test change IsSession
        (λ k v h e. subst (λ j. IsSession j (change v)) (sym e) (keep k v h)) s.sessions
        (sessions-Keyed s.sessions w.sessions) w.sessions;
  sessions_distinct = sweep-Distinct (λ v. v.id) test change s.sessions w.sessions_distinct;
  approvals = w.approvals;
  approvals_distinct = w.approvals_distinct;
  ids = w.ids;
}

pub sweep_approvals-WellFormed :
    (s : ControlPlaneState) (test : ApprovalView → Bool) (change : ApprovalView → ApprovalView)
    → ((k : Text) (a : ApprovalView) → IsApproval k a → IsApproval k (change a))
    → WellFormed s
    → WellFormed (record s { approvals = sweep (λ a. a.id) test change s.approvals })
sweep_approvals-WellFormed s test change keep w = record {
  hosts = w.hosts;
  hosts_distinct = w.hosts_distinct;
  sessions = w.sessions;
  sessions_distinct = w.sessions_distinct;
  approvals =
      sweep-Every (λ a. a.id) test change IsApproval
        (λ k a h e. subst (λ j. IsApproval j (change a)) (sym e) (keep k a h)) s.approvals
        (approvals-Keyed s.approvals w.approvals) w.approvals;
  approvals_distinct = sweep-Distinct (λ a. a.id) test change s.approvals w.approvals_distinct;
  ids = w.ids;
}
