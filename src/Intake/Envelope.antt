-- ===== src/Intake/Envelope.antt =====
-- src/core/intake.py: the file that is taken in, and the name that it is shown under. Texts are code
-- points; a path is one of POSIX.
use tally_agentic_memory.Prelude.{
  ℕ, zero, suc, ◌*◌, ◌≤◌, ltb, leb, ◌==◌, ◌≡◌, refl, sym, inl, inr, String, Bool, true, false, not,
  ◌||◌, Option, none, some, List, [], ◌∷◌, ◌++◌, map, filter, length, is_empty, arith, Bool-cases,
  if◌then◌else◌,
}
use tally_agentic_memory.Prelude.Result.{Result, ok, err}
use tally_agentic_memory.Prelude.Text.{codes, codes_eq, starts_with, strip}
use mathlib.Core.List.{reverse}
use mathlib.Core.Path.{subst}

pub record PdfEnvelope : Type 0 where
  pub display_filename : List ℕ
  pub byte_length : ℕ
  pub sha256 : String

-- `MAX_PDF_BYTES`
abbrev pub max_pdf_bytes : ℕ
max_pdf_bytes = 15 * 1024 * 1024

-- `value[:n]`
abbrev pub cut : ℕ → List ℕ → List ℕ
cut zero t = []
cut (suc n) [] = []
cut (suc n) (c ∷ t) = c ∷ cut n t

-- The components of a path, without the empty ones; the one that is being read comes first.
abbrev pub components : List ℕ → List ℕ → List (List ℕ)
components run [] = if is_empty run then [] else run ∷ []
components run (c ∷ t) =
    let ended = components [] t in
    let longer = components (run ++ c ∷ []) t in
    if c == 47 then (if is_empty run then ended else run ∷ ended) else longer

abbrev pub last_or_empty : List (List ℕ) → List ℕ
last_or_empty [] = []
last_or_empty (t ∷ []) = t
last_or_empty (t ∷ (u ∷ ts)) = last_or_empty (u ∷ ts)

-- `PurePath(path).name`: a component "." is dropped.
abbrev pub path_name : List ℕ → List ℕ
path_name path = last_or_empty (filter (λ t. not (codes_eq t (46 ∷ []))) (components [] path))

-- `filename or "invoice.pdf"`
abbrev pub given_name : Option (List ℕ) → List ℕ
given_name none = codes "invoice.pdf"
given_name (some t) = if is_empty t then codes "invoice.pdf" else t

abbrev pub is_control : ℕ → Bool
is_control c = leb c 31 || c == 127

abbrev pub ends_with : List ℕ → List ℕ → Bool
ends_with suffix t = starts_with (reverse suffix) (reverse t)

module _ (lower : List ℕ → List ℕ) where
  -- The name with its suffix.
  abbrev pub with_suffix : List ℕ → List ℕ
  with_suffix t = if ends_with (codes ".pdf") (lower t) then t else t ++ codes ".pdf"

  unfoldable pub normalize_display_filename : Option (List ℕ) → List ℕ
  unfolding strip starts_with
  normalize_display_filename filename =
      let path = map (λ c. if c == 92 then 47 else c) (given_name filename) in
      let candidate = filter (λ c. not (is_control c)) (strip (path_name path)) in
      cut 255 (with_suffix (given_name (some candidate)))

  unfoldable pub validate_pdf_envelope :
      (List ℕ → String) → List ℕ → Option (List ℕ) → ℕ → Result {0} String PdfEnvelope
  unfolding starts_with
  validate_pdf_envelope sha256 body filename maximum_bytes =
      if is_empty body
      then err "EMPTY_FILE"
      else if ltb maximum_bytes (length body)
      then err "FILE_TOO_LARGE"
      else if not (starts_with (codes "%PDF-") body)
      then err "UNSUPPORTED_FILE"
      else ok (record {
        display_filename = normalize_display_filename filename;
        byte_length = length body;
        sha256 = sha256 body;
      })

length-cut : (n : ℕ) (t : List ℕ) → length (cut n t) ≤ n
length-cut zero t = omega arith
length-cut (suc n) [] = omega arith
length-cut (suc n) (c ∷ t) = omega (arith, length-cut n t)

cut_some : (n : ℕ) (t : List ℕ) → is_empty t ≡ false → 1 ≤ length (cut (suc n) t)
cut_some n [] h = absurd (ground (arith, h))
cut_some n (c ∷ t) h = omega arith

some_name : (t : List ℕ) → is_empty (given_name (some t)) ≡ false
some_name [] = refl
some_name (c ∷ t) = refl

some_suffix :
    (lower : List ℕ → List ℕ) (t : List ℕ)
    → is_empty t ≡ false
    → is_empty (with_suffix lower t) ≡ false
some_suffix lower [] h = absurd (ground (arith, h))
some_suffix lower (c ∷ t) h = elim (Bool-cases (ends_with (codes ".pdf") (lower (c ∷ t)))) [
  | inl e ↦ rw e refl
  | inr e ↦ rw e refl
]

some_bytes : (t : List ℕ) → is_empty t ≡ false → 1 ≤ length t
some_bytes [] h = absurd (ground (arith, h))
some_bytes (c ∷ t) h = omega arith

name_bounds :
    (lower : List ℕ → List ℕ) (filename : Option (List ℕ))
    → (1 ≤ length (normalize_display_filename lower filename))
      × (length (normalize_display_filename lower filename) ≤ 255)
unfolding normalize_display_filename
name_bounds lower filename = (cut_some 254 _ (some_suffix lower _ (some_name _)), length-cut 255 _)

-- A file that is taken in has at least one byte and at most the limit, starts with the signature, and
-- is shown under a name of at least one character and at most 255.
pub envelope_bounds :
    (lower : List ℕ → List ℕ) (sha256 : List ℕ → String) (body : List ℕ)
    (filename : Option (List ℕ)) (maximum_bytes : ℕ) (envelope : PdfEnvelope)
    → validate_pdf_envelope lower sha256 body filename maximum_bytes ≡ ok envelope
    → (1 ≤ envelope.byte_length)
      × (envelope.byte_length ≤ maximum_bytes)
      × (starts_with (codes "%PDF-") body ≡ true)
      × (1 ≤ length envelope.display_filename)
      × (length envelope.display_filename ≤ 255)
unfolding validate_pdf_envelope
envelope_bounds lower sha256 body filename maximum_bytes envelope h =
    elim (Bool-cases (is_empty body)) [
      | inl e ↦ absurd (ground (arith, h, e))
      | inr e ↦ elim (Bool-cases (ltb maximum_bytes (length body))) [
        | inl f ↦ absurd (ground (arith, h, e, f))
        | inr f ↦ elim (Bool-cases (starts_with (codes "%PDF-") body)) [
          | inr g ↦ absurd (ground (arith, h, e, f, g))
          | inl g ↦
              let name : envelope.display_filename ≡ normalize_display_filename lower filename =
                ground (arith, h, e, f, g) in
              let size : envelope.byte_length ≡ length body = ground (arith, h, e, f, g) in
              let (low, high) = name_bounds lower filename in
              (
                omega (arith, size, some_bytes body e),
                ground (arith, size, f),
                g,
                subst (λ t. 1 ≤ length t) (sym name) low,
                subst (λ t. length t ≤ 255) (sym name) high,
              )
        ]
      ]
    ]
