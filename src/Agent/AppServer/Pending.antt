-- ===== src/Agent/AppServer/Pending.antt =====
-- The requests to the Codex process: which are pending, which were settled and which are lost.
use steerloop.Common.{
  ℕ, ◌≤◌, Text, text, List, [], ◌∷◌, Option, none, some, Bool, true, false, if_either, arith, ◌≡◌,
  refl,
}
use steerloop.Common.Json.{Json, null, bool, num, str, arr, obj, Fields, member, as_string}
use steerloop.Common.Effects.{Outcome, ok}
use steerloop.Agent.AppServer.{
  new_client, start, initialized, stop, notify, AppServer, Written, write, pending_method, request,
  on_timeout, on_exit, on_error, settle_answer, answer_pending, answer_request, answered,
  handle_line, with_method, is_answer,
}
use steerloop.Agent.AppServer.Accounts.{
  times_pending, times_settled, Accounted, times_pending-pending_method, settle-Accounted,
  written-Accounted, request-Accounted, on_timeout-Accounted, reject_all-Accounted,
  with_method-Accounted, drop-Accounted, times_lost, lost_after, Kept,
}

module _ (show : Json → Text) (parse_id : Json → Option ℕ) where
  abbrev id_of : Option ℕ → List ℕ
  id_of none = []
  id_of (some k) = k ∷ []

  abbrev named_id : Option Json → List ℕ
  named_id none = []
  named_id (some j) = id_of (parse_id j)

  -- The request that a line names, if it names one.
  abbrev pub named : (line : Option Json) → List ℕ
  named (some (obj fs)) = named_id (member (text "id") fs)
  named _ = []

  settle_answer-Kept :
      {lost : List ℕ} (k : ℕ) (e r : Option Json) (s : AppServer)
      → 1 ≤ times_pending k s.pending
      → Accounted lost s
      → Kept (k ∷ []) lost (settle_answer show parse_id k e r s)
  settle_answer-Kept k none r s w a = settle-Accounted k _ s w refl a
  settle_answer-Kept k (some null) r s w a = drop-Accounted k s w a
  settle_answer-Kept k (some (bool b)) r s w a = settle-Accounted k _ s w refl a
  settle_answer-Kept k (some (num n)) r s w a = settle-Accounted k _ s w refl a
  settle_answer-Kept k (some (str t)) r s w a = settle-Accounted k _ s w refl a
  settle_answer-Kept k (some (arr js)) r s w a = settle-Accounted k _ s w refl a
  settle_answer-Kept k (some (obj fs)) r s w a = settle-Accounted k _ s w refl a

  answer_pending-Kept :
      {lost : List ℕ} (k : ℕ) (o : Option Text) (fs : Fields) (s : AppServer)
      → pending_method k s.pending ≡ o
      → Accounted lost s
      → Kept (k ∷ []) lost (answer_pending show parse_id o k fs s)
  answer_pending-Kept k none fs s found a = a
  answer_pending-Kept k (some m) fs s found a =
      settle_answer-Kept k (member _ fs) (member _ fs) s
        (times_pending-pending_method k s.pending m found) a

  answer_request-Kept :
      {lost : List ℕ} (o : Option ℕ) (fs : Fields) (s : AppServer)
      → Accounted lost s
      → Kept (id_of o) lost (answer_request show parse_id o fs s)
  answer_request-Kept none fs s a = a
  answer_request-Kept (some k) fs s a =
      answer_pending-Kept k (pending_method k s.pending) fs s refl a

  answered-Kept :
      {lost : List ℕ} (o : Option Json) (fs : Fields) (s : AppServer)
      → Accounted lost s
      → Kept (named_id o) lost (answered show parse_id o fs s)
  answered-Kept none fs s a = a
  answered-Kept (some j) fs s a = answer_request-Kept (parse_id j) fs s a

  handle_line-Kept :
      {lost : List ℕ} (line : Option Json) (s : AppServer)
      → Accounted lost s
      → Kept (named line) lost (handle_line show parse_id line s)
  unfolding handle_line
  handle_line-Kept none s a = a
  handle_line-Kept (some null) s a = a
  handle_line-Kept (some (bool b)) s a = a
  handle_line-Kept (some (num n)) s a = a
  handle_line-Kept (some (str t)) s a = a
  handle_line-Kept (some (arr js)) s a = a
  handle_line-Kept {lost} (some (obj fs)) s a =
      if_either {A = AppServer × Outcome (Unit {0})} (Kept (named (some (obj fs))) lost)
        (is_answer show parse_id fs)
        {y = (with_method (as_string (member (text "method") fs)) fs s, ok tt)}
        (answered-Kept (member (text "id") fs) fs s a)
        (with_method-Accounted (as_string (member (text "method") fs)) fs s a)

  -- What can happen to a client from its creation on, and the requests that were named by lines that
  -- made it throw, the latest first.
  pub data Reaches : (lost : List ℕ) → AppServer → Type 0 where
    fresh : Reaches [] new_client
    starts : (lost : List ℕ) (s : AppServer) → Reaches lost s → Reaches lost (start s).0
    initializes :
        (lost : List ℕ) (s : AppServer) (result : Option Json)
        → Reaches lost s
        → Reaches lost (initialized result s).0
    requests :
        (lost : List ℕ) (s : AppServer) (method : Text) (params : Json)
        → Reaches lost s
        → Reaches lost (request method params s).0
    writes :
        (lost : List ℕ) (s : AppServer) (w : Written) → Reaches lost s → Reaches lost (write w s).0
    times_out :
        (lost : List ℕ) (s : AppServer) (id : ℕ) → Reaches lost s → Reaches lost (on_timeout id s)
    exits :
        (lost : List ℕ) (s : AppServer) (reason : Text)
        → Reaches lost s
        → Reaches lost (on_exit reason s)
    fails :
        (lost : List ℕ) (s : AppServer) (message : Text)
        → Reaches lost s
        → Reaches lost (on_error message s)
    stops : (lost : List ℕ) (s : AppServer) → Reaches lost s → Reaches lost (stop s)
    reads :
        (lost : List ℕ) (s : AppServer) (line : Option Json)
        → Reaches lost s
        → Reaches
            (lost_after (named line) lost (handle_line show parse_id line s).1)
            (handle_line show parse_id line s).0

  state-Accounted :
      {lost : List ℕ} (s : AppServer) (running : Bool) (result : Option Json) (ws : List Written)
      → Accounted lost s
      → Accounted lost
          (record s { running = running; initialization_result = result; written = ws })
  state-Accounted s running result ws a = record { positive = a.positive; once = a.once }

  write-Accounted :
      {lost : List ℕ} (w : Written) (s : AppServer)
      → Accounted lost s
      → Accounted lost (write w s).0
  unfolding write
  write-Accounted {lost} w s a =
      if_either {A = AppServer × Outcome (Unit {0})} (λ t. Accounted lost t.0) s.running
        (written-Accounted s _ a) a

  start-Accounted : {lost : List ℕ} (s : AppServer) → Accounted lost s → Accounted lost (start s).0
  unfolding start
  start-Accounted {lost} s a =
      if_either {A = AppServer × Option ℕ} (λ t. Accounted lost t.0) s.running a
        (request-Accounted _ _ (record s { running = true })
          (state-Accounted s true s.initialization_result s.written a))

  -- Every request that a client ever made, and nothing else, stands in one place, once: it is pending,
  -- or it was settled, or it was lost to a line that named it and made the client throw.
  pub Reaches-Accounted : (lost : List ℕ) (s : AppServer) → Reaches lost s → Accounted lost s
  unfolding on_exit on_error stop initialized notify times_pending times_settled times_lost
  Reaches-Accounted _ _ fresh = record { positive = omega arith; once = λ id. ground arith }
  Reaches-Accounted _ _ (starts lost s r) = start-Accounted s (Reaches-Accounted lost s r)
  Reaches-Accounted _ _ (initializes lost s result r) =
      write-Accounted _ (record s { initialization_result = result })
        (state-Accounted s s.running result s.written (Reaches-Accounted lost s r))
  Reaches-Accounted _ _ (requests lost s method params r) =
      request-Accounted method params s (Reaches-Accounted lost s r)
  Reaches-Accounted _ _ (writes lost s w r) = write-Accounted w s (Reaches-Accounted lost s r)
  Reaches-Accounted _ _ (times_out lost s id r) =
      on_timeout-Accounted id s (Reaches-Accounted lost s r)
  Reaches-Accounted _ _ (exits lost s reason r) =
      reject_all-Accounted reason false s (Reaches-Accounted lost s r)
  Reaches-Accounted _ _ (fails lost s message r) =
      reject_all-Accounted message s.running s (Reaches-Accounted lost s r)
  Reaches-Accounted _ _ (stops lost s r) =
      state-Accounted s false none s.written (Reaches-Accounted lost s r)
  Reaches-Accounted _ _ (reads lost s line r) = handle_line-Kept line s (Reaches-Accounted lost s r)
