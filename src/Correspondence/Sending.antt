-- ===== src/Correspondence/Sending.antt =====
-- What a send does, on each of its branches.
use mathlib.Core.Path.{subst}
use tally_agentic_memory.Prelude.{
  sym, ap, ◌∙◌, ◌+◌, ◌≡◌, ◌⊎◌, refl, inl, inr, String, Bool, true, false, Option, none, some, ◌∷◌,
  arith, Bool-cases, Option-cases, eq_iff,
}
use tally_agentic_memory.Prelude.Python.{Python}
use tally_agentic_memory.Prelude.Result.{ok, err, Result-cases}
use tally_agentic_memory.Intake.{ready_for_reconstruction}
use tally_agentic_memory.Tables.{Db}
use tally_agentic_memory.Tables.Letters.{Draft, SendAttempt}
use tally_agentic_memory.Store.{invoice_of, lock_invoice_and_advance, insert_event}
use tally_agentic_memory.Tasks.Frame.{Frame}
use tally_agentic_memory.Events.Numbering.{invoice_at}
use tally_agentic_memory.Events.Log.{Logs, quiet, one, two, Any, moved}
use tally_agentic_memory.Correspondence.Gates.{evaluate_send_gates}
use tally_agentic_memory.Correspondence.Provider.{
  Provider, ControlledSendReceipt, send, recipient_class_controlled,
}
use tally_agentic_memory.Correspondence.Send.Emission.{
  SendResult, SendCall, SendIds, SendEvent, blocked_event, failed_event, sent_event, draft_of,
  attempt_of, send_status, send_event, emit_send_event,
}
use tally_agentic_memory.Correspondence.Send.{
  update_attempt, failed_attempt, sent_attempt, send_request_hash, provider_key, gate_results,
  persisted, with_event, replayed_attempt, send_blocked, send_sent, send_failed, send_permitted,
  approve_and_send,
}

-- The tables of the other parts, but for what is logged of the invoices.
abbrev pub Leaves : Db → Db → Type 0
Leaves db db' = Logs Any db db' × Frame db db'

module _ (python : Python) (call : SendCall) (ids : SendIds) where
  -- The answer of an earlier attempt under the key.
  abbrev pub Repeats : Db → SendResult → Db → Type 0
  Repeats db r db' =
      (d : Draft) × (a : SendAttempt) × (draft_of db call.draft_id ≡ some d)
      × (attempt_of db call.idempotency_key ≡ some a)
      × (a.request_hash ≡ send_request_hash python call ids d)
      × (r ≡ replayed_attempt python call ids a)
      × (db' ≡ db)

  -- A first attempt under the key, with the gates passed or not.
  abbrev pub Attempts : Bool → Db → Draft → Type 0
  Attempts b db d =
      (draft_of db call.draft_id ≡ some d)
      × (attempt_of db call.idempotency_key ≡ none)
      × ((evaluate_send_gates (gate_results python call ids d)).permitted ≡ b)

  abbrev pub written : Draft → Db → Db
  written d db =
      persisted python call ids d (evaluate_send_gates (gate_results python call ids d)) db

  abbrev pub reason : Draft → Option String
  reason d = (evaluate_send_gates (gate_results python call ids d)).blocked_reason

  pub send_cases :
      (db : Db) (p : Provider) (r : SendResult) (db' : Db) (p' : Provider)
      → approve_and_send python call ids db p ≡ (ok (r, db'), p')
      → (Repeats db r db' × (p' ≡ p))
        ⊎ (((d : Draft) × Attempts false db d
              × (send_blocked python call ids d (reason d) (written d db) p ≡ (ok (r, db'), p')))
            ⊎ ((d : Draft) × Attempts true db d
                × (send_permitted python call ids d (written d db) p ≡ (ok (r, db'), p'))))
  unfolding approve_and_send
  send_cases db p r db' p' h = elim (Option-cases (draft_of db call.draft_id)) [
    | inl e ↦ absurd (ground (arith, h, e))
    | inr (d, e) ↦ elim (Option-cases (attempt_of db call.idempotency_key)) [
      | inr (a, f) ↦
          let g = eq_iff a.request_hash (send_request_hash python call ids d) in
          inl (
            (
              d,
              a,
              e,
              f,
              ground (arith, h, e, f, g),
              ground (arith, h, e, f),
              ground (arith, h, e, f),
            ),
            ground (arith, h, e, f),
          )
      | inl f ↦ elim (Bool-cases (evaluate_send_gates (gate_results python call ids d)).permitted) [
        | inl g ↦ inr (inr (d, (e, f, g), ground (arith, h, e, f, g)))
        | inr g ↦ inr (inl (d, (e, f, g), ground (arith, h, e, f, g)))
      ]
    ]
  ]

  pub permitted_attempt :
      (db : Db) (d : Draft) (p : Provider)
      → Attempts true db d
      → approve_and_send python call ids db p ≡ send_permitted python call ids d (written d db) p
  unfolding approve_and_send
  permitted_attempt db d p (e, f, g) = ground (arith, e, f, g)

  emit-Logs :
      (invoice_id : String) (e : SendEvent) (db db' : Db)
      → emit_send_event python call ids invoice_id e db ≡ some db'
      → Logs Any db db'
  unfolding emit_send_event lock_invoice_and_advance insert_event invoice_of send_event
  emit-Logs invoice_id e db db' h = elim (Option-cases (invoice_at invoice_id db.invoices)) [
    | inl f ↦ absurd (ground (arith, h, f))
    | inr (i, f) ↦
        let status = send_status db invoice_id e in
        one invoice_id ready_for_reconstruction status ids.now none i
          (send_event python call ids invoice_id e status (i.status_sequence + 1)) f true refl refl
          (ground (arith, h, f)) (ground (arith, h, f))
  ]

  -- A send that is answered wrote its event.
  pub with_event_cases :
      (x : SendResult) (o : Option Db) (p : Provider) (r : SendResult) (db' : Db) (p' : Provider)
      → with_event python call ids x o p ≡ (ok (r, db'), p')
      → (o ≡ some db') × (r ≡ x) × (p' ≡ p)
  with_event_cases x none p r db' p' h = absurd (ground (arith, h))
  with_event_cases x (some d) p r db' p' h =
      (ground (arith, h), ground (arith, h), ground (arith, h))

  -- The rows of the invoices and the events, where what was written before the event is the same.
  Logs-from :
      (db mid db' : Db)
      → mid.invoices ≡ db.invoices
      → mid.events ≡ db.events
      → Logs Any mid db'
      → Logs Any db db'
  Logs-from db mid db' f g (quiet h k) = quiet (h ∙ f) (k ∙ g)
  Logs-from db mid db' f g (one id s a now c i e q x y n h k) =
      one id s a now c i e (ap (invoice_at id) (sym f) ∙ q) x y n (h ∙ ap (moved id s a 1 now c) f)
        (k ∙ ap (λ es. e ∷ es) g)
  Logs-from db mid db' f g (two id s a now c i d e q x y z m n h k) =
      two id s a now c i d e (ap (invoice_at id) (sym f) ∙ q) x y z m n
        (h ∙ ap (moved id s a 2 now c) f) (k ∙ ap (λ es. e ∷ (d ∷ es)) g)

  pub emit-Frame :
      (invoice_id : String) (e : SendEvent) (db db' : Db)
      → emit_send_event python call ids invoice_id e db ≡ some db'
      → Frame db db'
        × (db'.send_attempts ≡ db.send_attempts)
        × (db'.correspondence_drafts ≡ db.correspondence_drafts)
  unfolding emit_send_event lock_invoice_and_advance insert_event
  emit-Frame invoice_id e db db' h = elim (Option-cases (invoice_of db invoice_id)) [
    | inl f ↦ absurd (ground (arith, h, f))
    | inr (i, f) ↦ (
      (ground (arith, h, f), ground (arith, h, f), ground (arith, h, f), ground (arith, h, f)),
      ground (arith, h, f),
      ground (arith, h, f),
    )
  ]

  pub permitted_sent :
      (d : Draft) (db : Db) (p : Provider) (receipt : ControlledSendReceipt) (q : Provider)
      → send python (provider_key python call ids d) recipient_class_controlled p ≡ ok (receipt, q)
      → send_sent python call ids d receipt (written d db) q
        ≡ send_permitted python call ids d (written d db) p
  unfolding send_permitted
  permitted_sent d db p receipt q o = ground (arith, o)

  pub permitted_failed :
      (d : Draft) (db : Db) (p : Provider) (x : String)
      → send python (provider_key python call ids d) recipient_class_controlled p ≡ err x
      → send_failed python call ids d x (written d db) p
        ≡ send_permitted python call ids d (written d db) p
  unfolding send_permitted
  permitted_failed d db p x o = ground (arith, o)

  -- An event after a change of the attempts and the gate runs alone.
  Leaves-emitted :
      (invoice_id : String) (e : SendEvent) (db mid db' : Db)
      → mid.invoices ≡ db.invoices
      → mid.events ≡ db.events
      → Frame db mid
      → emit_send_event python call ids invoice_id e mid ≡ some db'
      → Leaves db db'
  Leaves-emitted invoice_id e db mid db' f g (a, s, c, i) h =
      let ((a2, s2, c2, i2), _, _) = emit-Frame invoice_id e mid db' h in
      (
        Logs-from db mid db' f g (emit-Logs invoice_id e mid db' h),
        (a2 ∙ a, s2 ∙ s, c2 ∙ c, i2 ∙ i),
      )

  -- An attempt leaves the tables of the other parts but for one event.
  pub send-Leaves :
      (db : Db) (p : Provider) (r : SendResult) (db' : Db) (p' : Provider)
      → approve_and_send python call ids db p ≡ (ok (r, db'), p')
      → Leaves db db'
  unfolding send_blocked send_sent send_failed persisted
  send-Leaves db p r db' p' h = elim (send_cases db p r db' p' h) [
    | inl ((_, _, _, _, _, _, e), _) ↦
        subst (Leaves db) (sym e) (quiet refl refl, (refl, refl, refl, refl))
    | inr (inl (d, _, k)) ↦
        let (e, _, _) = with_event_cases _ _ _ r db' p' k in
        Leaves-emitted d.invoice_id (blocked_event (reason d)) db (written d db) db' refl refl
          (refl, refl, refl, refl) e
    | inr (inr (d, _, k)) ↦
        elim (Result-cases
          (send python (provider_key python call ids d) recipient_class_controlled p)) [
            | inl ((receipt, q), o) ↦
                let (e, _, _) =
                  with_event_cases _ _ _ r db' p' (permitted_sent d db p receipt q o ∙ k) in
                Leaves-emitted d.invoice_id (sent_event receipt) db
                  (update_attempt python call ids (sent_attempt python call ids receipt)
                    (written d db))
                  db' refl refl (refl, refl, refl, refl) e
            | inr (x, o) ↦
                let (e, _, _) = with_event_cases _ _ _ r db' p' (permitted_failed d db p x o ∙ k) in
                Leaves-emitted d.invoice_id (failed_event x) db
                  (update_attempt python call ids (failed_attempt python call ids x) (written d db))
                  db' refl refl (refl, refl, refl, refl) e
          ]
  ]
