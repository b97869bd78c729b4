-- ===== src/Agent/Codex/Waiting.antt =====
-- The prompts that wait while a turn runs, and how many are kept.
use steerloop.Common.{
  ◌≤◌, Text, List, [], ◌∷◌, ◌++◌, some, or_else, length, slice_last, length-slice_last-le,
  slice_last_short, slice_last_again, arith, ◌≡◌, refl, sym, ap, ◌∙◌, subst, lookup, insert,
  lookup-insert_self,
}
use mathlib.Core.List.{append-nil, append_assoc}
use steerloop.Common.Effects.{ok}
use steerloop.Protocol.Schema.{PromptBehavior}
use steerloop.Agent.Codex.Adapter.{CodexAdapter, Replies, enqueue_prompt, send_prompt}

-- The prompts that wait for a thread.
abbrev pub waiting : (id : Text) → CodexAdapter → List Text
waiting id s = or_else (lookup id s.queued_prompts) []

-- One prompt after the other, each to be queued.
abbrev pub send_all : (id : Text) → Replies → List Text → CodexAdapter → CodexAdapter
send_all id r [] s = s
send_all id r (p ∷ ps) s = send_all id r ps (send_prompt id p PromptBehavior.queue r s).0

module _ (id turn : Text) (r : Replies) where
  abbrev enqueued : Text → CodexAdapter → CodexAdapter
  enqueued p s = record s {
    queued_prompts = insert id (slice_last 20 (waiting id s ++ p ∷ [])) s.queued_prompts;
  }

  send_prompt_active :
      (p : Text) (s : CodexAdapter)
      → lookup id s.active_turns ≡ some turn
      → send_prompt id p PromptBehavior.queue r s ≡ (enqueued p s, ok tt)
  unfolding send_prompt enqueue_prompt
  send_prompt_active p s active = rw active refl

  waiting-enqueued :
      (p : Text) (qs : List Text) (s : CodexAdapter)
      → waiting id s ≡ slice_last 20 qs
      → waiting id (enqueued p s) ≡ slice_last 20 (qs ++ p ∷ [])
  waiting-enqueued p qs s e =
      ap (λ o. or_else o [])
        (lookup-insert_self id (slice_last 20 (waiting id s ++ p ∷ [])) s.queued_prompts)
      ∙ ap (λ ws. slice_last 20 (ws ++ p ∷ [])) e
      ∙ slice_last_again 20 qs p (omega arith)

  abbrev pub Queued : List Text → CodexAdapter → CodexAdapter → Type 0
  Queued qs s t =
      (waiting id t ≡ slice_last 20 qs)
      × (t.client ≡ s.client)
      × (t.active_turns ≡ s.active_turns)
      × (t.loaded_threads ≡ s.loaded_threads)
      × (t.context ≡ s.context)

  pub send_all_lem :
      (ps qs : List Text) (s : CodexAdapter)
      → lookup id s.active_turns ≡ some turn
      → waiting id s ≡ slice_last 20 qs
      → Queued (qs ++ ps) s (send_all id r ps s)
  send_all_lem [] qs s active e =
      (e ∙ ap (slice_last 20) (sym (append-nil qs)), refl, refl, refl, refl)
  send_all_lem (p ∷ ps) qs s active e =
      let rest = send_all_lem ps (qs ++ p ∷ []) (enqueued p s) active (waiting-enqueued p qs s e) in
      let all = qs ++ p ∷ ps in
      subst (λ x. Queued all s (send_all id r ps x.0)) (sym (send_prompt_active p s active))
        (rest.0 ∙ ap (slice_last 20) (append_assoc qs (p ∷ []) ps), rest.1, rest.2, rest.3, rest.4)

  -- While a turn of a thread runs, the prompts to be queued wait in the order they came, behind those
  -- that wait already; only the last 20 are kept, and Codex is told nothing.
  pub queued_in_order :
      (ps : List Text) (s : CodexAdapter)
      → lookup id s.active_turns ≡ some turn
      → length (waiting id s) ≤ 20
      → let t = send_all id r ps s in
        (waiting id t ≡ slice_last 20 (waiting id s ++ ps))
        × (length (waiting id t) ≤ 20)
        × (t.client ≡ s.client)
  queued_in_order ps s active few =
      let q =
        send_all_lem ps (waiting id s) s active (sym (slice_last_short 20 (waiting id s) few)) in
      (q.0, rw q.0 (length-slice_last-le 20 (waiting id s ++ ps)), q.1)
