-- ===== src/Reconstruction/Access.antt =====
-- src/core/reconstruction.py: the check of a retained terminal-access snapshot before it is bound.
use tally_agentic_memory.Prelude.{
  ℕ, ◌==◌, ◌≡◌, ◌↔◌, String, Bool, true, false, not, ◌||◌, Option, none, some, arith, str_eq,
  eq_iff, if◌then◌else◌,
}

pub record AccessSnapshotFacts : Type 0 where
  pub public_ref : String
  pub container_ref : String
  pub snapshot_date : ℕ
  pub exact_source_verified : Bool
  pub access_status : String
  pub gate_status : String
  pub blocking_hold : String

pub record AccessVerification : Type 0 where
  pub passed : Bool
  pub reason_code : Option String

abbrev refused : String → AccessVerification
refused code = record { passed = false; reason_code = some code }

module _ (facts : AccessSnapshotFacts) (expected_container_ref : String) (expected_date : ℕ) where
  unfoldable pub verify_access_snapshot : AccessVerification
  verify_access_snapshot =
      if not (str_eq facts.container_ref expected_container_ref)
      then refused "CONTAINER_MISMATCH"
      else if not (facts.snapshot_date == expected_date)
      then refused "DATE_MISMATCH"
      else if not facts.exact_source_verified
      then refused "SOURCE_VERSION_UNAVAILABLE"
      else if not (str_eq facts.access_status "AVAILABLE")
          || not (str_eq facts.gate_status "OPEN")
          || not (str_eq facts.blocking_hold "NONE")
      then refused "SOURCE_INTEGRITY_FAILED"
      else record { passed = true; reason_code = none }

  -- What a snapshot asserts when it may be bound.
  pub record IsBindable : Type 0 where
    pub container : facts.container_ref ≡ expected_container_ref
    pub date : facts.snapshot_date ≡ expected_date
    pub exact : facts.exact_source_verified ≡ true
    pub access : facts.access_status ≡ "AVAILABLE"
    pub gate : facts.gate_status ≡ "OPEN"
    pub hold : facts.blocking_hold ≡ "NONE"

  passed→IsBindable : verify_access_snapshot.passed ≡ true → IsBindable
  unfolding verify_access_snapshot
  passed→IsBindable h = record {
    container = ground (arith, eq_iff facts.container_ref expected_container_ref);
    date = ground arith;
    exact = ground arith;
    access = ground (arith, eq_iff facts.access_status "AVAILABLE");
    gate = ground (arith, eq_iff facts.gate_status "OPEN");
    hold = ground (arith, eq_iff facts.blocking_hold "NONE");
  }

  IsBindable→passed : IsBindable → verify_access_snapshot.passed ≡ true
  unfolding verify_access_snapshot
  IsBindable→passed b = ground (
    arith,
    eq_iff facts.container_ref expected_container_ref,
    eq_iff facts.access_status "AVAILABLE",
    eq_iff facts.gate_status "OPEN",
    eq_iff facts.blocking_hold "NONE",
  )

  -- A snapshot passes exactly if it is of the expected container and date, its exact source is
  -- verified, and it asserts access, an open gate and no hold; and it has a reason code exactly if it
  -- does not pass.
  pub passed-IsBindable :
      ((verify_access_snapshot.passed ≡ true) ↔ IsBindable)
      × ((verify_access_snapshot.reason_code ≡ none) ↔ (verify_access_snapshot.passed ≡ true))
  passed-IsBindable = (
    (passed→IsBindable, IsBindable→passed),
    (unfold verify_access_snapshot in (λ h. ground arith, λ h. ground arith)),
  )
