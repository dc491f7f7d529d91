-- ===== src/Correspondence/Retried.antt =====
-- src/platform/correspondence_repository.py: `dal.run_with_retry(_send)`, where the database refuses
-- some commits. A refused commit undoes the tables, and not the provider.
use tally_agentic_memory.Prelude.{
  ℕ, zero, suc, ◌≡◌, ◌≢◌, refl, sym, ap, ◌∙◌, String, Bool, true, false, none, [], ◌∷◌, arith,
  eq_iff,
}
use tally_agentic_memory.Prelude.Python.{Python, concat}
use tally_agentic_memory.Prelude.Result.{Result, ok, err}
use tally_agentic_memory.Database.{
  Outcome, committed, restarts, raises, run_with_retry, retry_from, stops, goes_on,
}
use tally_agentic_memory.Tables.{Db}
use tally_agentic_memory.Tables.Letters.{Draft}
use tally_agentic_memory.Correspondence.Provider.{
  Provider, send, delivered_under, receipt, recipient_class_controlled,
}
use tally_agentic_memory.Correspondence.Send.Emission.{SendResult, SendCall, SendIds}
use tally_agentic_memory.Correspondence.Send.{
  provider_key, send_permitted, send_sent, approve_and_send,
}
use tally_agentic_memory.Correspondence.Sending.{Attempts, written, permitted_attempt}
use tally_agentic_memory.Correspondence.Delivery.{with_event_provider}

abbrev pub outcome_of : Bool → Result {0} String (SendResult × Db) → Outcome (SendResult × Db)
outcome_of true r = restarts
outcome_of false (ok a) = committed a
outcome_of false (err e) = raises e

accepted : (r : Result {0} String (SendResult × Db)) → outcome_of false r ≢ restarts
accepted (ok a) e = cc
accepted (err x) e = cc

module _ (python : Python) (call : SendCall) (ids : ℕ → SendIds) (tables : ℕ → Db)
    (refused : ℕ → Bool) where
  -- A run of `_send` at an attempt, with the ids and the tables that it finds.
  unfoldable pub send_run : ℕ → Provider → Outcome (SendResult × Db) × Provider
  send_run attempt p =
      let r = approve_and_send python call (ids attempt) (tables attempt) p in
      (outcome_of (refused attempt) r.0, r.1)

  unfoldable pub send_with_retry : ℕ → Provider → Outcome (SendResult × Db) × Provider
  unfolding send_run
  send_with_retry max_retries p = run_with_retry send_run max_retries p

  abbrev pub key_at : ℕ → Draft → String
  key_at k d = provider_key python call (ids k) d

  abbrev pub message_at : ℕ → Draft → String × String
  message_at k d = (key_at k d, concat ("demo-" ∷ python.prefix 16 (key_at k d) ∷ []))

  abbrev with_message : ℕ → Draft → Provider → Provider
  with_message k d p = record p { delivered = message_at k d ∷ p.delivered }

  sent_once :
      (k : ℕ) (d : Draft) (p : Provider)
      → p.fails ≡ false
      → delivered_under (key_at k d) p ≡ none
      → send python (key_at k d) recipient_class_controlled p
        ≡ ok (receipt (message_at k d).1 false, with_message k d p)
  unfolding send
  sent_once k d p w n = ground (arith, w, n)

  permitted_provider :
      (k : ℕ) (d : Draft) (db : Db) (p : Provider)
      → p.fails ≡ false
      → delivered_under (key_at k d) p ≡ none
      → (send_permitted python call (ids k) d db p).1 ≡ with_message k d p
  unfolding send_sent send_permitted provider_key
  permitted_provider k d db p w n =
      rw (send_permitted, sent_once k d p w n)
        (with_event_provider python call (ids k) _ _ (with_message k d p))

  run_provider :
      (k : ℕ) (d : Draft) (p : Provider)
      → Attempts python call (ids k) true (tables k) d
      → p.fails ≡ false
      → delivered_under (key_at k d) p ≡ none
      → (send_run k p).1 ≡ with_message k d p
  unfolding send_run
  run_provider k d p a w n =
      ap (λ o. o.1) (permitted_attempt python call (ids k) (tables k) d p a)
      ∙ permitted_provider k d (written python call (ids k) d (tables k)) p w n

  run_refused : (k : ℕ) (p : Provider) → refused k ≡ true → (send_run k p).0 ≡ restarts
  unfolding send_run
  run_refused k p r = ap (λ b. outcome_of b (approve_and_send python call (ids k) (tables k) p).0) r

  run_accepted : (k : ℕ) (p : Provider) → refused k ≡ false → (send_run k p).0 ≢ restarts
  unfolding send_run
  run_accepted k p r e =
      accepted (approve_and_send python call (ids k) (tables k) p).0
        (sym (ap (λ b. outcome_of b (approve_and_send python call (ids k) (tables k) p).0) r) ∙ e)

  second_last :
      (left : ℕ) (p : Provider) → refused 1 ≡ false → retry_from send_run left 1 p ≡ send_run 1 p
  unfolding retry_from
  second_last zero p r = refl
  second_last (suc left) p r = stops send_run left 1 p (run_accepted 1 p r)

  -- Where the commit of the first run is refused and that of the second is not, both runs pass the
  -- gates, the provider works and their keys, which come from fresh ids, are new to it and differ:
  -- the provider has delivered two messages for the one call.
  pub delivers_twice :
      (max_retries : ℕ) (d : Draft) (p : Provider)
      → refused 0 ≡ true
      → refused 1 ≡ false
      → Attempts python call (ids 0) true (tables 0) d
      → Attempts python call (ids 1) true (tables 1) d
      → p.fails ≡ false
      → delivered_under (key_at 0 d) p ≡ none
      → delivered_under (key_at 1 d) p ≡ none
      → key_at 0 d ≢ key_at 1 d
      → (send_with_retry (suc max_retries) p).1.delivered
        ≡ message_at 1 d ∷ (message_at 0 d ∷ p.delivered)
  unfolding send_with_retry run_with_retry
  delivers_twice max_retries d p r s a b w m n k =
      let first : (send_run 0 p).1 ≡ with_message 0 d p = run_provider 0 d p a w m in
      let apart : delivered_under (key_at 1 d) (with_message 0 d p) ≡ none =
        ground (arith, n, k, eq_iff (key_at 0 d) (key_at 1 d)) in
      let second : (send_run 1 (with_message 0 d p)).1 ≡ with_message 1 d (with_message 0 d p) =
        run_provider 1 d (with_message 0 d p) b w apart in
      let on = goes_on send_run max_retries 0 p (run_refused 0 p r) in
      let last = second_last max_retries (send_run 0 p).1 s in
      ap (λ o. o.1.delivered) (on ∙ last)
      ∙ (ap (λ q. (send_run 1 q).1.delivered) first ∙ ap (λ q. q.delivered) second)
