-- ===== src/Intake/Tests.antt =====
-- The bounds at a small file.
use tally_agentic_memory.Prelude.{ℕ, ◌≡◌, ◌≤◌, refl, String, true, none, List, length}
use tally_agentic_memory.Prelude.Result.{ok}
use tally_agentic_memory.Prelude.Text.{codes, starts_with}
use tally_agentic_memory.Intake.Envelope.{
  PdfEnvelope, max_pdf_bytes, normalize_display_filename, validate_pdf_envelope, envelope_bounds,
}

abbrev same : List ℕ → List ℕ
same t = t

abbrev digest : List ℕ → String
digest t = "h"

abbrev body : List ℕ
body = codes "%PDF-1.7"

abbrev envelope : PdfEnvelope
envelope = record {
  display_filename = normalize_display_filename same none;
  byte_length = 8;
  sha256 = "h";
}

envelope_1 : validate_pdf_envelope same digest body none max_pdf_bytes ≡ ok envelope
unfolding validate_pdf_envelope starts_with
envelope_1 = refl

envelope_bounds_example :
    (1 ≤ envelope.byte_length)
    × (envelope.byte_length ≤ max_pdf_bytes)
    × (starts_with (codes "%PDF-") body ≡ true)
    × (1 ≤ length envelope.display_filename)
    × (length envelope.display_filename ≤ 255)
envelope_bounds_example = envelope_bounds same digest body none max_pdf_bytes envelope envelope_1
