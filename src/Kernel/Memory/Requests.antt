-- ===== src/Kernel/Memory/Requests.antt =====
-- memory.go and memory_types.go: the requests on memory candidates and their validation.
use genesis.Prelude.{
  String, Bool, false, not, ◌||◌, Option, none, some, List, [], ◌∷◌, str_eq, if◌then◌else◌,
}
use genesis.Prelude.Text.{is_empty, append, trim}
use genesis.Prelude.Results.{Result, err, ok}
use genesis.Kernel.Ledger.{KernelEnv}
use genesis.Kernel.Refs.{
  validate_kernel_ref, validate_kernel_authority, validate_kernel_control_token, required,
  first_error,
}

pub record MemoryCandidateRequest : Type 0 where
  pub session_id : String
  pub text : String
  pub source_ref : String
  pub kind : String
  pub scope : String
  pub applies_when : String
  pub yields_to : String
  pub strength : String

pub record MemoryApprovalRequest : Type 0 where
  pub approval_authority : String
  pub approval_reason : String
  pub approval_evidence_ref : String

pub record MemoryRejectionRequest : Type 0 where
  pub rejection_authority : String
  pub rejection_reason : String
  pub rejection_evidence_ref : String

pub record MemorySupersessionRequest : Type 0 where
  pub replacement_text : String
  pub replacement_source_ref : String
  pub supersession_authority : String
  pub supersession_reason : String
  pub supersession_evidence_ref : String

pub record MemoryForgetRequest : Type 0 where
  pub forget_authority : String
  pub forget_reason : String
  pub forget_evidence_ref : String

abbrev one_of : String → List String → Bool
one_of s [] = false
one_of s (t ∷ ts) = str_eq s t || one_of s ts

-- validMemoryKind
unfoldable pub valid_memory_kind : String → Bool
valid_memory_kind kind = one_of kind (
    "preference" ∷ "heuristic" ∷ "method" ∷ "lesson" ∷ "project_overlay" ∷ "capability_hint"
    ∷ "memory_fact" ∷ [])

-- validMemoryScope
unfoldable pub valid_memory_scope : String → Bool
valid_memory_scope scope = one_of scope ("global" ∷ "project" ∷ "workspace" ∷ "capability" ∷ [])

-- validMemoryStrength
unfoldable pub valid_memory_strength : String → Bool
valid_memory_strength strength =
    one_of strength ("weak_hint" ∷ "preference" ∷ "strong_rule" ∷ "contract_hint" ∷ [])

pub record MemoryCandidateMetadata : Type 0 where
  pub kind : String
  pub scope : String
  pub applies_when : String
  pub yields_to : String
  pub strength : String

abbrev or_default : String → String → String
or_default value fallback = if is_empty (trim value) then fallback else trim value

-- normalizedMemoryCandidateMetadata
unfoldable pub normalized_memory_candidate_metadata :
    KernelEnv → MemoryCandidateRequest → Result MemoryCandidateMetadata
normalized_memory_candidate_metadata k req =
    let kind = or_default req.kind "memory_fact" in
    let scope = or_default req.scope "global" in
    let strength = or_default req.strength "weak_hint" in
    if not (valid_memory_kind kind)
    then err (append "unsupported memory candidate kind " (k.quote kind))
    else if not (valid_memory_scope scope)
    then err (append "unsupported memory candidate scope " (k.quote scope))
    else if not (valid_memory_strength strength)
    then err (append "unsupported memory candidate strength " (k.quote strength))
    else ok record {
      kind = kind;
      scope = scope;
      applies_when = trim req.applies_when;
      yields_to = trim req.yields_to;
      strength = strength;
    }

abbrev error_of {ℓ} : {A : Type ℓ} → Result A → Option String
error_of (err e) = some e
error_of (ok a) = none

-- validateMemoryCandidateRequest
unfoldable pub validate_memory_candidate_request :
    KernelEnv → MemoryCandidateRequest → Option String
validate_memory_candidate_request k req = first_error (
    required "session_id" req.session_id
    ∷ required "text" req.text
    ∷ required "source_ref" req.source_ref
    ∷ validate_kernel_control_token "session_id" req.session_id
    ∷ validate_kernel_ref "source_ref" req.source_ref
    ∷ error_of (normalized_memory_candidate_metadata k req)
    ∷ [])

-- validateMemoryApprovalRequest
unfoldable pub validate_memory_approval_request : MemoryApprovalRequest → Option String
validate_memory_approval_request req = first_error (
    required "approval_authority" req.approval_authority
    ∷ required "approval_reason" req.approval_reason
    ∷ required "approval_evidence_ref" req.approval_evidence_ref
    ∷ validate_kernel_authority "approval_authority" req.approval_authority
    ∷ validate_kernel_ref "approval_evidence_ref" req.approval_evidence_ref
    ∷ [])

-- validateMemoryRejectionRequest
unfoldable pub validate_memory_rejection_request : MemoryRejectionRequest → Option String
validate_memory_rejection_request req = first_error (
    required "rejection_authority" req.rejection_authority
    ∷ required "rejection_reason" req.rejection_reason
    ∷ required "rejection_evidence_ref" req.rejection_evidence_ref
    ∷ validate_kernel_authority "rejection_authority" req.rejection_authority
    ∷ validate_kernel_ref "rejection_evidence_ref" req.rejection_evidence_ref
    ∷ [])

-- validateMemorySupersessionRequest
unfoldable pub validate_memory_supersession_request : MemorySupersessionRequest → Option String
validate_memory_supersession_request req = first_error (
    required "replacement_text" req.replacement_text
    ∷ required "replacement_source_ref" req.replacement_source_ref
    ∷ required "supersession_authority" req.supersession_authority
    ∷ required "supersession_reason" req.supersession_reason
    ∷ required "supersession_evidence_ref" req.supersession_evidence_ref
    ∷ validate_kernel_ref "replacement_source_ref" req.replacement_source_ref
    ∷ validate_kernel_authority "supersession_authority" req.supersession_authority
    ∷ validate_kernel_ref "supersession_evidence_ref" req.supersession_evidence_ref
    ∷ [])

-- validateMemoryForgetRequest
unfoldable pub validate_memory_forget_request : MemoryForgetRequest → Option String
validate_memory_forget_request req = first_error (
    required "forget_authority" req.forget_authority
    ∷ required "forget_reason" req.forget_reason
    ∷ required "forget_evidence_ref" req.forget_evidence_ref
    ∷ validate_kernel_authority "forget_authority" req.forget_authority
    ∷ validate_kernel_ref "forget_evidence_ref" req.forget_evidence_ref
    ∷ [])
