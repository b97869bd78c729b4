-- ===== src/Agent/Codex/Prompts.antt =====
-- The turns that waiting prompts start.
use steerloop.Common.{
  ℕ, ◌+◌, ◌≤◌, Text, text, List, [], ◌∷◌, ◌++◌, Option, some, Bool, true, or_else, length,
  slice_last, slice_last_short, All, arith, ◌≡◌, refl, sym, ap, ◌∙◌, lookup, insert, remove,
  lookup-insert_self,
}
use mathlib.Core.List.{append-nil, append_assoc}
use steerloop.Common.Json.{Json, Fields, member, as_record}
use steerloop.Common.Effects.{Outcome, ok, after_outcome}
use steerloop.Protocol.Schema.{NormalizedEvent}
use steerloop.Agent.AppServer.{AppServer, Written, Settled, settle, request, write}
use steerloop.Agent.Codex.Values.{Show, optional_limited_string, status_detail}
use steerloop.Agent.AppServer
use steerloop.Agent.Codex.Adapter
use steerloop.Agent.Codex.Adapter.{
  CodexAdapter, Replies, status_event, settled_as, ensure_loaded, start_turn, start_params,
  enqueue_prompt, send_prompt, emit,
}
use steerloop.Agent.Codex.Approvals.{emit-accepted}
use steerloop.Agent.Codex.Notices.{turn_status, completed_turn}
use steerloop.Agent.Codex.Waiting.{waiting, send_all, send_all_lem}

-- The calls that start turns with the prompts.
abbrev pub start_calls : ℕ → (id : Text) → List Text → List Written
start_calls n id [] = []
start_calls n id (p ∷ ps) =
    AppServer.call n (text "turn/start") (start_params id p) ∷ start_calls (n + 1) id ps

-- The state once a call is made and answered.
abbrev called :
    (method : Text) → (params : Json) → Outcome (Option Json) → CodexAdapter → CodexAdapter
called method params reply s =
    let n = s.client.next_request_id in
    record s {
      client = settle n (settled_as n reply) (record s.client {
        next_request_id = n + 1;
        pending = s.client.pending ++ (n, method) ∷ [];
        written = s.client.written ++ AppServer.call n method params ∷ [];
      });
    }

call_running :
    (method : Text) (params : Json) (reply : Outcome (Option Json)) (s : CodexAdapter)
    → s.client.running ≡ true
    → Adapter.call method params reply s ≡ (called method params reply s, reply)
unfolding Adapter.call request write
call_running method params reply s h = rw h refl

ensure_loaded_lem :
    (id : Text) (resume : Outcome (Option Json)) (s : CodexAdapter)
    → lookup id s.loaded_threads ≡ some tt
    → ensure_loaded id resume s ≡ (s, ok tt)
unfolding ensure_loaded
ensure_loaded_lem id resume s h = rw h refl

start_turn_lem :
    (id p : Text) (r : Replies) (o : Option Json) (s : CodexAdapter)
    → lookup id s.loaded_threads ≡ some tt
    → s.client.running ≡ true
    → r.turn ≡ ok o
    → start_turn id p r s ≡ (called (text "turn/start") (start_params id p) (ok o) s, ok tt)
unfolding start_turn
start_turn_lem id p r o s loaded running taken =
    rw
      (
        ensure_loaded_lem id r.resume s loaded,
        taken,
        call_running (text "turn/start") (start_params id p) (ok o) s running,
      )
      refl

-- The event that tells how a turn ended.
abbrev pub end_event : Fields → NormalizedEvent
end_event turn = status_event (turn_status (member (text "status") turn)) (
    optional_limited_string (member (text "message") (as_record (member (text "error") turn)))
      status_detail)

module _ (rt : Show) (accepts : Option Text → NormalizedEvent → Bool) (id : Text) where
  -- One turn after the other completes, until one throws.
  abbrev pub complete_all :
      List (Fields × Replies) → CodexAdapter → CodexAdapter × Outcome (Unit {0})
  complete_all [] s = (s, ok tt)
  complete_all ((turn, r) ∷ cs) s =
      after_outcome (completed_turn rt accepts id turn r s) (λ _. complete_all cs)

  -- The context takes the event of the end of the turn, and Codex the next turn.
  abbrev pub IsTaken : Fields × Replies → Type 0
  IsTaken (turn, r) =
      (accepts (some id) (end_event turn) ≡ true) × ((o : Option Json) × (r.turn ≡ ok o))

  -- The adapter is started with its process running, and the thread is loaded.
  pub record Ready (s : CodexAdapter) : Type 0 where
    pub host : Text
    pub started : s.context ≡ some host
    pub running : s.client.running ≡ true
    pub loaded : lookup id s.loaded_threads ≡ some tt

  pub record Started (p : Text) (ps : List Text) (s t : CodexAdapter) : Type 0 where
    pub ready : Ready t
    pub written :
        t.client.written
        ≡ s.client.written
          ++ AppServer.call s.client.next_request_id (text "turn/start") (start_params id p) ∷ []
    pub next : t.client.next_request_id ≡ s.client.next_request_id + 1
    pub left : waiting id t ≡ ps

  completed_turn_lem :
      (turn : Fields) (r : Replies) (p : Text) (ps : List Text) (s : CodexAdapter)
      → Ready s
      → IsTaken (turn, r)
      → waiting id s ≡ p ∷ ps
      → (t : CodexAdapter) × Started p ps s t × (completed_turn rt accepts id turn r s ≡ (t, ok tt))
  unfolding completed_turn
  completed_turn_lem turn r p ps s ready (taken, (o, replied)) e =
      let s1 = record s { active_turns = remove id s.active_turns } in
      let event = end_event turn in
      let s2 = record s1 { emitted = s.emitted ++ (some id, event) ∷ [] } in
      let s3 = record s2 { queued_prompts = insert id ps s.queued_prompts } in
      (
        called (text "turn/start") (start_params id p) (ok o) s3,
        record {
          ready = record {
            host = ready.host;
            started = ready.started;
            running = ready.running;
            loaded = ready.loaded;
          };
          written = refl;
          next = refl;
          left = ap (λ o. or_else o []) (lookup-insert_self id ps s.queued_prompts);
        },
        rw (emit-accepted accepts (some id) event s1 ready.host ready.started taken, e)
            (start_turn_lem id p r o s3 ready.loaded ready.running replied),
      )

  complete_all_lem :
      (cs : List (Fields × Replies)) (ps : List Text) (s : CodexAdapter)
      → Ready s
      → All IsTaken cs
      → waiting id s ≡ ps
      → length cs ≡ length ps
      → let (t, o) = complete_all cs s in
        (t.client.written ≡ s.client.written ++ start_calls s.client.next_request_id id ps)
        × (waiting id t ≡ [])
        × (o ≡ ok tt)
  complete_all_lem [] [] s ready taken e n = (sym (append-nil s.client.written), e, refl)
  complete_all_lem [] (p ∷ ps) s ready taken e n = absurd (omega arith)
  complete_all_lem (c ∷ cs) [] s ready taken e n = absurd (omega arith)
  complete_all_lem ((turn, r) ∷ cs) (p ∷ ps) s ready taken e n =
      let (t, one, is) = completed_turn_lem turn r p ps s ready taken.0 e in
      let rest = complete_all_lem cs ps t one.ready taken.1 one.left (omega (arith, n)) in
      let c = AppServer.call s.client.next_request_id (text "turn/start") (start_params id p) in
      rw is (
        rest.0
            ∙ ap (λ w. w ++ start_calls t.client.next_request_id id ps) one.written
            ∙ ap (λ k. (s.client.written ++ c ∷ []) ++ start_calls k id ps) one.next
            ∙ append_assoc s.client.written (c ∷ [])
                (start_calls (s.client.next_request_id + 1) id ps),
        rest.1,
        rest.2,
      )

  -- Where the adapter is started, its process runs, the thread is loaded and no prompt of it waits: at
  -- most 20 prompts to be queued while a turn runs, and after them as many completed turns, whose ends
  -- the context takes and after each of which Codex takes the next turn, start one turn with each
  -- prompt, in the order they were sent; none is left waiting, and nothing throws.
  pub prompts_in_order :
      (running_turn : Text) (r : Replies) (ps : List Text) (cs : List (Fields × Replies))
      (s : CodexAdapter)
      → Ready s
      → lookup id s.active_turns ≡ some running_turn
      → waiting id s ≡ []
      → length ps ≤ 20
      → All IsTaken cs
      → length cs ≡ length ps
      → let (t, o) = complete_all cs (send_all id r ps s) in
        (t.client.written ≡ s.client.written ++ start_calls s.client.next_request_id id ps)
        × (waiting id t ≡ [])
        × (o ≡ ok tt)
  unfolding slice_last
  prompts_in_order running_turn r ps cs s ready active idle few taken n =
      let q = send_all_lem id running_turn r ps [] s active idle in
      let u = send_all id r ps s in
      let ready' : Ready u = record {
        host = ready.host;
        started = q.4 ∙ ready.started;
        running = ap (λ c. c.running) q.1 ∙ ready.running;
        loaded = ap (λ m. lookup id m) q.3 ∙ ready.loaded;
      } in
      let done = complete_all_lem cs ps u ready' taken (q.0 ∙ slice_last_short 20 ps few) n in
      (done.0 ∙ ap (λ c. c.written ++ start_calls c.next_request_id id ps) q.1, done.1, done.2)
