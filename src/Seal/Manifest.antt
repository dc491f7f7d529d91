-- ===== src/Seal/Manifest.antt =====
-- src/core/seal_manifest.py: the manifest of a seal and its digest.
use tally_agentic_memory.Prelude.{ℕ, ◌==◌, String, Bool, not, ◌||◌, Option, List, str_eq}
use tally_agentic_memory.Prelude.Int.{ℤ, pos}
use tally_agentic_memory.Prelude.Json.{Json, field, end, items, optional}
use tally_agentic_memory.Prelude.Python.{Python, prefixed_digest}

pub record SealInputs : Type 0 where
  pub invoice_id : String
  pub reconstruction_id : String
  pub reconstruction_version : ℕ
  pub recommendation_id : String
  pub recommendation_version : ℕ
  pub recommendation_type : String
  pub recommendation_digest : String
  pub disputed_amount_minor : ℤ
  pub supported_amount_minor : ℤ
  pub claimed_amount_minor : ℤ
  pub currency : String
  pub applicable_rule_id : Option String
  pub applicable_rule_digest : Option String
  pub claim_set_version : ℕ
  pub invoice_source_ref : String
  pub day_judgment_digests : List String
  pub approver_display : String
  pub approver_kind : String

abbrev pub nat : ℕ → Json
nat n = Json.int (pos n)

module _ (python : Python) where
  unfoldable pub build_seal_manifest : SealInputs → ℕ → Json
  build_seal_manifest inputs revision = Json.obj (
      field "schema_version" (nat 1) (
        field "revision" (nat revision) (
          field "invoice_id" (Json.str inputs.invoice_id) (
            field "reconstruction"
              (Json.obj (
                field "id" (Json.str inputs.reconstruction_id)
                  (field "version" (nat inputs.reconstruction_version) end)))
              (field "recommendation"
                (Json.obj (
                  field "id" (Json.str inputs.recommendation_id) (
                    field "version" (nat inputs.recommendation_version) (
                      field "type" (Json.str inputs.recommendation_type) (
                        field "digest" (Json.str inputs.recommendation_digest) (
                          field "disputed_amount_minor" (Json.int inputs.disputed_amount_minor) (
                            field "supported_amount_minor" (Json.int inputs.supported_amount_minor)
                              (field "claimed_amount_minor" (Json.int inputs.claimed_amount_minor)
                                (field "currency" (Json.str inputs.currency) end)))))))))
                (field "applicable_rule"
                  (Json.obj (
                    field "id" (optional Json.str inputs.applicable_rule_id)
                      (field "digest" (optional Json.str inputs.applicable_rule_digest) end)))
                  (field "claim_set_version" (nat inputs.claim_set_version) (
                    field "invoice_source_binding_sha256"
                      (Json.str (python.sha256_hex inputs.invoice_source_ref))
                      (field "day_judgments" (Json.arr (items Json.str inputs.day_judgment_digests))
                        (field "approver"
                          (Json.obj (
                            field "display" (Json.str inputs.approver_display)
                              (field "kind" (Json.str inputs.approver_kind) end)))
                          end))))))))))

  unfoldable pub seal_digest : Json → String
  seal_digest manifest = prefixed_digest python manifest

  unfoldable pub approval_request_hash : String → ℕ → String → String → String
  approval_request_hash recommendation_id recommendation_version recommendation_digest decision =
      python.sha256_hex (
        python.canonical_json (
          Json.obj (
            field "rec" (Json.str recommendation_id) (
              field "v" (nat recommendation_version) (
                field "digest" (Json.str recommendation_digest)
                  (field "decision" (Json.str decision) end))))))

unfoldable pub is_stale : ℕ → ℕ → String → String → Bool
is_stale expected_version current_version expected_digest current_digest =
    not (expected_version == current_version) || not (str_eq expected_digest current_digest)
