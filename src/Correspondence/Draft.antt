-- ===== src/Correspondence/Draft.antt =====
-- src/platform/correspondence_repository.py: the transaction of draft_from_sealed. The pack was
-- read before it, and the prose was written and validated.
use tally_agentic_memory.Prelude.{
  String, Bool, ◌&&◌, Option, none, some, ◌∷◌, find, str_eq, if◌then◌else◌,
}
use tally_agentic_memory.Prelude.Json.{Json}
use tally_agentic_memory.Prelude.Python.{Python}
use tally_agentic_memory.Tables.{Db}
use tally_agentic_memory.Tables.Letters.{Draft}
use tally_agentic_memory.Correspondence.FactPack.{
  SealedFactPack, locked_fields, locked_fields_digest, DraftValidation,
  validate_draft_locked_fields, build_subject,
}
use tally_agentic_memory.Correspondence.Provider.{recipient_class_controlled}

pub record DraftResult : Type 0 where
  pub draft_id : String
  pub seal_digest : String
  pub validation_state : String

-- What was written: the text, who wrote it, and what `validate_draft_prose` says of it.
pub record Prose : Type 0 where
  pub body : String
  pub generator_kind : String
  pub generator_model_id : Option String
  pub validation : DraftValidation

unfoldable pub draft_of_seal : Db → String → Option Draft
draft_of_seal db seal_id =
    find (λ (d : Draft). str_eq d.decision_seal_id seal_id) db.correspondence_drafts

abbrev pub validated_if : Bool → String
validated_if b = if b then "VALIDATED" else "INVALID"

module _ (python : Python) (pack : SealedFactPack) (prose : Prose) (draft_id : String) where
  -- Both the locked fields and the prose validate.
  unfoldable pub overall : String
  overall =
      validated_if
        ((validate_draft_locked_fields python pack (locked_fields pack)).ok && prose.validation.ok)

  unfoldable pub draft_row : Draft
  unfolding overall
  draft_row = record {
    id = draft_id;
    invoice_id = pack.invoice_id;
    decision_seal_id = pack.decision_seal_id;
    seal_digest = pack.seal_digest;
    recipient_class = recipient_class_controlled;
    subject = build_subject pack;
    body_prose = prose.body;
    locked_fields = Json.obj (locked_fields pack);
    locked_fields_digest = locked_fields_digest python pack;
    validation_state = overall;
    state = "DRAFT_READY";
    generator_kind = prose.generator_kind;
    generator_model_id = prose.generator_model_id;
    prose_validation_state = validated_if prose.validation.ok;
    prose_validation_issues = prose.validation.issues;
  }

  unfoldable pub draft : Db → DraftResult × Db
  unfolding draft_of_seal draft_row
  draft db = elim (draft_of_seal db pack.decision_seal_id) [
    | some d ↦ (
      record { draft_id = d.id; seal_digest = pack.seal_digest; validation_state = "VALIDATED" },
      db,
    )
    | none ↦ (
      record { draft_id = draft_id; seal_digest = pack.seal_digest; validation_state = overall },
      record db { correspondence_drafts = draft_row ∷ db.correspondence_drafts },
    )
  ]
