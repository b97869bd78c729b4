-- ===== src/Protocol/Schema.antt =====
-- packages/protocol/src/schema.ts: the data of the protocol. A literal field (`kind`, `type`,
-- `protocolVersion`, `algorithm`) is the constructor or the type itself. Strings are lists of
-- UTF-16 code units. The constraints of each schema are in Schema/Checks.
pub mod Checks
use steerloop.Common.{ℕ, Text, List, Option, Bool}

pub data SessionStatus : Type 0 where
  idle running waiting_approval waiting_input completed failed interrupted offline : SessionStatus

pub data ApprovalKind : Type 0 where
  command file_change network permissions : ApprovalKind

pub data ApprovalDecision : Type 0 where
  approve_once decline cancel : ApprovalDecision

pub data ActivityKind : Type 0 where
  analysis command file_change test message : ActivityKind

pub data PromptBehavior : Type 0 where
  queue steer : PromptBehavior

pub record HostConnected : Type 0 where
  pub name : Text
  pub platform : Text
  pub agent_version : Text
  pub capabilities : List Text

pub record SessionUpserted : Type 0 where
  pub title : Text
  pub cwd : Option Text
  pub source : Text
  pub status : SessionStatus

pub record StatusChanged : Type 0 where
  pub status : SessionStatus
  pub detail : Option Text

pub record Activity : Type 0 where
  pub activity_id : Text
  pub kind : ActivityKind
  pub summary : Text
  pub detail : Option Text

pub record MessageDelta : Type 0 where
  pub message_id : Text
  pub delta : Text

pub record DiffUpdated : Type 0 where
  pub summary : Text
  pub files_changed : Option ℕ
  pub additions : Option ℕ
  pub deletions : Option ℕ

pub record ApprovalRequested : Type 0 where
  pub approval_id : Text
  pub kind : ApprovalKind
  pub title : Text
  pub reason : Option Text
  pub command : Option Text
  pub cwd : Option Text
  pub grant_root : Option Text
  pub network_host : Option Text
  pub network_protocol : Option Text
  pub requested_permissions : Option (List Text)
  pub request_digest : Text
  pub expires_at : Text

pub record ApprovalResolved : Type 0 where
  pub approval_id : Text
  pub decision : ApprovalDecision
  pub resolved_at : Text

pub data NormalizedEvent : Type 0 where
  host_connected : HostConnected → NormalizedEvent
  host_heartbeat : (at : Text) → NormalizedEvent
  host_disconnected : (reason : Option Text) → NormalizedEvent
  session_upserted : SessionUpserted → NormalizedEvent
  session_status_changed : StatusChanged → NormalizedEvent
  session_activity : Activity → NormalizedEvent
  session_message_delta : MessageDelta → NormalizedEvent
  session_diff_updated : DiffUpdated → NormalizedEvent
  approval_requested : ApprovalRequested → NormalizedEvent
  approval_resolved : ApprovalResolved → NormalizedEvent

pub record EventEnvelope : Type 0 where
  pub event_id : Text
  pub sequence : ℕ
  pub host_id : Text
  pub session_id : Option Text
  pub emitted_at : Text
  pub event : NormalizedEvent

pub record Authorization : Type 0 where
  pub device_id : Text
  pub signed_at : Text
  pub signature : Text

pub record ApprovalResolve : Type 0 where
  pub approval_id : Text
  pub request_digest : Text
  pub decision : ApprovalDecision
  pub authorization : Option Authorization

pub data NormalizedCommand : Type 0 where
  approval_resolve : ApprovalResolve → NormalizedCommand
  session_interrupt : NormalizedCommand
  session_prompt : (prompt : Text) → PromptBehavior → NormalizedCommand

pub record CommandEnvelope : Type 0 where
  pub command_id : Text
  pub host_id : Text
  pub session_id : Text
  pub issued_at : Text
  pub expires_at : Text
  pub command : NormalizedCommand

pub record CommandResult : Type 0 where
  pub command_id : Text
  pub host_id : Text
  pub ok : Bool
  pub error : Option Text

pub record PairingOffer : Type 0 where
  pub host_id : Text
  pub code : Text
  pub expires_at : Text

pub data AuthFrame : Type 0 where
  agent : (token host_id : Text) → AuthFrame
  client : (token : Text) → AuthFrame

pub record AuthResult : Type 0 where
  pub ok : Bool
  pub error : Option Text

pub data ClientToRelay : Type 0 where
  auth : AuthFrame → ClientToRelay
  command : CommandEnvelope → ClientToRelay

pub data AgentToRelay : Type 0 where
  auth : AuthFrame → AgentToRelay
  event : EventEnvelope → AgentToRelay
  result : CommandResult → AgentToRelay
  offer : PairingOffer → AgentToRelay

pub data RelayToClient : Type 0 where
  auth_result : AuthResult → RelayToClient
  event : EventEnvelope → RelayToClient
  result : CommandResult → RelayToClient
  snapshot : List EventEnvelope → RelayToClient

pub data RelayToAgent : Type 0 where
  auth_result : AuthResult → RelayToAgent
  command : CommandEnvelope → RelayToAgent
