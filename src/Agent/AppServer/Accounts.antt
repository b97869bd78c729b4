-- ===== src/Agent/AppServer/Accounts.antt =====
-- What each operation on pending requests does to the account of all requests.
use steerloop.Common.{
  ℕ, ◌+◌, ◌≤◌, Text, List, [], ◌∷◌, ◌++◌, Option, none, some, Bool, ◌&&◌, ◌==◌, ltb, leb,
  if◌then◌else◌, if_either, Option-cases, inl, inr, map, arith, ◌≡◌, refl, ap,
}
use steerloop.Common.Json.{Json, null, bool, num, str, arr, obj, Fields, member}
use steerloop.Common.Effects.{Outcome, ok, throws}
use steerloop.Agent.AppServer.{
  AppServer, Written, call, Settled, resolved, rejected, ServerMessage, Told, write, pending_method,
  without_request, settle, after_write, request, settle_pending, on_timeout, reject_pending, tell,
  with_method,
}

abbrev pub settled_id : Settled → ℕ
settled_id (resolved id r) = id
settled_id (rejected id e) = id

-- How often a request is pending, and how often it was settled.
unfoldable pub times_pending : ℕ → List (ℕ × Text) → ℕ
times_pending id [] = 0
times_pending id ((i, m) ∷ ps) = (if i == id then 1 else 0) + times_pending id ps

unfoldable pub times_settled : ℕ → List Settled → ℕ
times_settled id [] = 0
times_settled id (r ∷ rs) = (if settled_id r == id then 1 else 0) + times_settled id rs

-- How often a request is among the lost ones.
unfoldable pub times_lost : ℕ → List ℕ → ℕ
times_lost id [] = 0
times_lost id (k ∷ ks) = (if k == id then 1 else 0) + times_lost id ks

-- Every request that was made is pending, was settled or is among the lost ones, once and in one of
-- these ways; no other is in any.
pub record Accounted (lost : List ℕ) (s : AppServer) : Type 0 where
  pub positive : 1 ≤ s.next_request_id
  pub once :
      (id : ℕ)
      → times_pending id s.pending + times_settled id s.settled + times_lost id lost
        ≡ (if leb 1 id && ltb id s.next_request_id then 1 else 0)

pub times_pending-append :
    (id : ℕ) (ps qs : List (ℕ × Text))
    → times_pending id (ps ++ qs) ≡ times_pending id ps + times_pending id qs
unfolding times_pending
times_pending-append id [] qs = omega arith
times_pending-append id ((i, m) ∷ ps) qs = omega (arith, times_pending-append id ps qs)

pub times_settled-append :
    (id : ℕ) (rs qs : List Settled)
    → times_settled id (rs ++ qs) ≡ times_settled id rs + times_settled id qs
unfolding times_settled
times_settled-append id [] qs = omega arith
times_settled-append id (r ∷ rs) qs = omega (arith, times_settled-append id rs qs)

pub times_pending-without_request :
    (id k : ℕ) (ps : List (ℕ × Text))
    → times_pending id (without_request k ps) ≡ (if k == id then 0 else times_pending id ps)
unfolding times_pending without_request
times_pending-without_request id k [] = ground arith
times_pending-without_request id k ((i, m) ∷ ps) =
    ground (arith, times_pending-without_request id k ps)

pub times_pending-pending_method :
    (k : ℕ) (ps : List (ℕ × Text)) (m : Text)
    → pending_method k ps ≡ some m
    → 1 ≤ times_pending k ps
unfolding times_pending pending_method
times_pending-pending_method k [] m h = absurd (cc h)
times_pending-pending_method k ((i, n) ∷ ps) m h =
    ground (arith, times_pending-pending_method k ps m)

pub times_settled-reject :
    (id : ℕ) (reason : Text) (ps : List (ℕ × Text))
    → times_settled id (map (reject_pending reason) ps) ≡ times_pending id ps
unfolding times_settled times_pending
times_settled-reject id reason [] = refl
times_settled-reject id reason ((i, m) ∷ ps) =
    ap (λ n. (if i == id then 1 else 0) + n) (times_settled-reject id reason ps)

-- A request that is dropped without being settled is lost.
pub drop-Accounted :
    {lost : List ℕ} (k : ℕ) (s : AppServer)
    → 1 ≤ times_pending k s.pending
    → Accounted lost s
    → Accounted (k ∷ lost) (record s { pending = without_request k s.pending })
unfolding times_lost
drop-Accounted k s waits a = record {
  positive = a.positive;
  once = λ id. ground (arith, a.once id, a.once k, times_pending-without_request id k s.pending);
}

pub settle-Accounted :
    {lost : List ℕ} (k : ℕ) (r : Settled) (s : AppServer)
    → 1 ≤ times_pending k s.pending
    → settled_id r ≡ k
    → Accounted lost s
    → Accounted lost (settle k r s)
unfolding times_settled
settle-Accounted k r s waits is a = record {
  positive = a.positive;
  once = λ id. ground (
    arith,
    a.once id,
    a.once k,
    times_pending-without_request id k s.pending,
    times_settled-append id s.settled (r ∷ []),
    is,
  );
}

pub settle_pending-Accounted :
    {lost : List ℕ} (k : ℕ) (r : Text → Settled) (s : AppServer)
    → ((m : Text) → settled_id (r m) ≡ k)
    → Accounted lost s
    → Accounted lost (settle_pending (pending_method k s.pending) k r s)
settle_pending-Accounted k r s is a = elim (Option-cases (pending_method k s.pending)) [
  | inl none_waits ↦ rw none_waits a
  | inr (m, found) ↦
      rw found
        (settle-Accounted k (r m) s (times_pending-pending_method k s.pending m found) (is m) a)
]

pub asked-Accounted :
    {lost : List ℕ} (m : Text) (s : AppServer)
    → Accounted lost s
    → Accounted lost (record s {
      next_request_id = s.next_request_id + 1;
      pending = s.pending ++ (s.next_request_id, m) ∷ [];
    })
unfolding times_pending
asked-Accounted m s a = record {
  positive = omega arith;
  once = λ id. ground (
    arith,
    a.once id,
    a.positive,
    times_pending-append id s.pending ((s.next_request_id, m) ∷ []),
  );
}

pub written-Accounted :
    {lost : List ℕ} (s : AppServer) (ws : List Written)
    → Accounted lost s
    → Accounted lost (record s { written = ws })
written-Accounted s ws a = record { positive = a.positive; once = a.once }

pub told-Accounted :
    {lost : List ℕ} (s : AppServer) (ts : List Told)
    → Accounted lost s
    → Accounted lost (record s { told = ts })
told-Accounted s ts a = record { positive = a.positive; once = a.once }

pub request-Accounted :
    {lost : List ℕ} (method : Text) (params : Json) (s : AppServer)
    → Accounted lost s
    → Accounted lost (request method params s).0
unfolding request write times_pending
request-Accounted {lost} method params s a =
    let id = s.next_request_id in
    let t = record s { next_request_id = id + 1; pending = s.pending ++ (id, method) ∷ [] } in
    let asked = asked-Accounted method s a in
    if_either {A = AppServer × Outcome (Unit {0})} (λ o. Accounted lost (after_write id o))
      t.running (written-Accounted t (t.written ++ call id method params ∷ []) asked)
      (settle-Accounted id _ t
        (ground (arith, times_pending-append id s.pending ((id, method) ∷ []))) refl asked)

pub on_timeout-Accounted :
    {lost : List ℕ} (id : ℕ) (s : AppServer) → Accounted lost s → Accounted lost (on_timeout id s)
unfolding on_timeout
on_timeout-Accounted id s a = settle_pending-Accounted id _ s (λ m. refl) a

pub reject_all-Accounted :
    {lost : List ℕ} (reason : Text) (running : Bool) (s : AppServer)
    → Accounted lost s
    → Accounted lost (record s {
      running = running;
      settled = s.settled ++ map (reject_pending reason) s.pending;
      pending = [];
    })
unfolding times_pending
reject_all-Accounted reason running s a = record {
  positive = a.positive;
  once = λ id. omega (
    arith,
    a.once id,
    times_settled-append id s.settled (map (reject_pending reason) s.pending),
    times_settled-reject id reason s.pending,
  );
}

pub tell-Accounted :
    {lost : List ℕ} (o : Option Json) (m : ServerMessage) (s : AppServer)
    → Accounted lost s
    → Accounted lost (tell o m s)
tell-Accounted none m s a = told-Accounted s _ a
tell-Accounted (some null) m s a = told-Accounted s _ a
tell-Accounted (some (bool b)) m s a = told-Accounted s _ a
tell-Accounted (some (num n)) m s a = told-Accounted s _ a
tell-Accounted (some (str t)) m s a = told-Accounted s _ a
tell-Accounted (some (arr js)) m s a = told-Accounted s _ a
tell-Accounted (some (obj fs)) m s a = told-Accounted s _ a

pub with_method-Accounted :
    {lost : List ℕ} (o : Option Text) (fs : Fields) (s : AppServer)
    → Accounted lost s
    → Accounted lost (with_method o fs s)
with_method-Accounted none fs s a = a
with_method-Accounted (some m) fs s a = tell-Accounted (member _ fs) _ s a

-- The lost requests after a step that lost the named ones if it threw.
abbrev pub lost_after : (named lost : List ℕ) → Outcome (Unit {0}) → List ℕ
lost_after named lost (ok u) = lost
lost_after named lost (throws e) = named ++ lost

abbrev pub Kept : (named lost : List ℕ) → AppServer × Outcome (Unit {0}) → Type 0
Kept named lost (s, o) = Accounted (lost_after named lost o) s
