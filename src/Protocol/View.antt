-- ===== src/Protocol/View.antt =====
-- packages/protocol/src/state.ts: the view of hosts, sessions and approvals that the reducer keeps.
-- A JavaScript object keyed by ids is an association list, without the names that
-- `Object.prototype` lends to every object; an absent optional field is `none`.
use steerloop.Common.{ℕ, Text, text, List, [], Option, none, Bool, Assoc}
use steerloop.Protocol.Schema.{
  SessionStatus, ApprovalKind, ApprovalDecision, ActivityKind, DiffUpdated, EventEnvelope,
}

pub record HostView : Type 0 where
  pub id : Text
  pub name : Text
  pub platform : Text
  pub agent_version : Text
  pub capabilities : List Text
  pub online : Bool
  pub last_seen_at : Text

pub record ActivityView : Type 0 where
  pub id : Text
  pub kind : ActivityKind
  pub summary : Text
  pub detail : Option Text
  pub emitted_at : Text

pub record SessionView : Type 0 where
  pub id : Text
  pub host_id : Text
  pub title : Text
  pub source : Text
  pub status : SessionStatus
  pub cwd : Option Text
  pub detail : Option Text
  pub latest_message : Text
  pub activities : List ActivityView
  pub diff : Option DiffUpdated
  pub updated_at : Text

pub data ApprovalStatus : Type 0 where
  pending : ApprovalStatus
  resolved : ApprovalDecision → ApprovalStatus

pub record ApprovalView : Type 0 where
  pub id : Text
  pub host_id : Text
  pub session_id : Text
  pub kind : ApprovalKind
  pub title : Text
  pub request_digest : Text
  pub expires_at : Text
  pub requested_at : Text
  pub status : ApprovalStatus
  pub reason : Option Text
  pub command : Option Text
  pub cwd : Option Text
  pub grant_root : Option Text
  pub network_host : Option Text
  pub network_protocol : Option Text
  pub requested_permissions : Option (List Text)
  pub resolved_at : Option Text

pub record ControlPlaneState : Type 0 where
  pub hosts : Assoc HostView
  pub sessions : Assoc SessionView
  pub approvals : Assoc ApprovalView
  pub last_sequence_by_host : Assoc ℕ
  pub recent_event_ids : List Text

abbrev pub max_activities : ℕ
max_activities = 30

abbrev pub max_event_ids : ℕ
max_event_ids = 2000

abbrev pub max_message : ℕ
max_message = 32768

unfoldable pub create_empty_state : ControlPlaneState
create_empty_state = record {
  hosts = [];
  sessions = [];
  approvals = [];
  last_sequence_by_host = [];
  recent_event_ids = [];
}

unfoldable pub placeholder_session : EventEnvelope → Text → SessionView
placeholder_session e id = record {
  id = id;
  host_id = e.host_id;
  title = text "Untitled session";
  source = text "unknown";
  status = SessionStatus.idle;
  cwd = none;
  detail = none;
  latest_message = [];
  activities = [];
  diff = none;
  updated_at = e.emitted_at;
}
