-- ===== src/Kernel/Authority/Writes.antt =====
-- A write is allowed only where the mode, the sandbox and the approval policy agree.
use native.Mathlib.Omega.{arith}
use genesis.Prelude.{
  String, ◌≡◌, ◌≢◌, refl, sym, subst, true, false, not, ◌⊎◌, inl, inr, Bool-cases, Option, none,
  some, str_eq, if◌then◌else◌, eq_iff,
}
use genesis.Prelude.Text.{is_empty}
use genesis.Kernel.Authority.{
  ToolPolicy, ResolvedToolPolicy, AuthorityPolicy, SandboxProfile,
  sandbox_profile_allowed_for_authority, parse_sandbox_profile, sandbox_override, approval_override,
  policy_of_mode, with_sandbox, with_approval, apply_tool_policy_overrides, resolve_tool_policy,
  normalized_permission_mode, normalized_policy_value, authorize_write, authorize_resolved,
  authorize_kernel_tool,
}

-- A policy without an objection is one whose sandbox the authority permits and that can be used.
pub record IsSound (r : ResolvedToolPolicy) : Type 0 where
  pub permitted : sandbox_profile_allowed_for_authority r.authority_policy r.sandbox_profile ≡ true
  pub usable : r.sandbox_profile ≢ SandboxProfile.os_workspace
  pub approval : (r.approval_policy ≡ "never") ⊎ (r.approval_policy ≡ "on_request")

abbrev SoundUnlessInvalid : ResolvedToolPolicy → Type 0
SoundUnlessInvalid r = is_empty r.invalid_reason ≡ true → IsSound r

os_refused :
    (r : ResolvedToolPolicy)
    → sandbox_profile_allowed_for_authority r.authority_policy SandboxProfile.os_workspace ≡ true
    → ¬ (is_empty (sandbox_override (some SandboxProfile.os_workspace) r).invalid_reason ≡ true)
unfolding sandbox_override
os_refused r t h = let no : false ≡ true = rw t at h in ground arith

permitted_lem :
    (s : SandboxProfile) (r : ResolvedToolPolicy)
    → SoundUnlessInvalid r
    → sandbox_profile_allowed_for_authority r.authority_policy s ≡ true
    → SoundUnlessInvalid (sandbox_override (some s) r)
unfolding sandbox_override
permitted_lem SandboxProfile.os_workspace r f t h = elim (os_refused r t h) [ ]
permitted_lem s r f t h =
    rw t (record { permitted = t; usable = λ e. ground arith; approval = (f (rw t at h)).approval })

sandbox_override_lem :
    (o : Option SandboxProfile) (r : ResolvedToolPolicy)
    → SoundUnlessInvalid r
    → SoundUnlessInvalid (sandbox_override o r)
unfolding sandbox_override
sandbox_override_lem none r f h = ground arith
sandbox_override_lem (some s) r f h =
    elim (Bool-cases (sandbox_profile_allowed_for_authority r.authority_policy s)) [
      | inl t ↦ permitted_lem s r f t h
      | inr n ↦ let no : false ≡ true = rw n at h in ground arith
    ]

approval_override_lem :
    (value : String) (r : ResolvedToolPolicy)
    → SoundUnlessInvalid r
    → SoundUnlessInvalid (approval_override value r)
unfolding approval_override
approval_override_lem value r f h = elim (Bool-cases (str_eq value "never")) [
  | inl t ↦ approved (inl (ground (arith, eq_iff value "never"))) (rw t refl)
  | inr n ↦ elim (Bool-cases (str_eq value "on_request")) [
    | inl t ↦ approved (inr (ground (arith, eq_iff value "on_request"))) (rw (n, t) refl)
    | inr n' ↦ let no : false ≡ true = rw (n, n') at h in ground arith
  ]
]
  where
    approved :
        (value ≡ "never") ⊎ (value ≡ "on_request")
        → approval_override value r ≡ record r { approval_policy = value }
        → IsSound (approval_override value r)
    approved a e =
        let s = f (subst (λ (x : ResolvedToolPolicy). is_empty x.invalid_reason ≡ true) e h) in
        subst IsSound (sym e) (record { permitted = s.permitted; usable = s.usable; approval = a })

mode_lem :
    (mode : String) (policy : ToolPolicy)
    → (policy_of_mode mode policy).known ≡ true
    → IsSound (policy_of_mode mode policy)
unfolding policy_of_mode sandbox_profile_allowed_for_authority
mode_lem mode policy h = elim (Bool-cases (str_eq mode "plan")) [
  | inl a ↦ rw a (record { permitted = refl; usable = λ e. ground arith; approval = inl refl })
  | inr a ↦ elim (Bool-cases (str_eq mode "default")) [
    | inl b ↦
        rw (a, b) (record { permitted = refl; usable = λ e. ground arith; approval = inl refl })
    | inr b ↦ elim (Bool-cases (str_eq mode "yolo")) [
      | inl c ↦
          rw (a, b, c)
            (record { permitted = refl; usable = λ e. ground arith; approval = inl refl })
      | inr c ↦ ground arith
    ]
  ]
]

with_sandbox_lem :
    (lower : String → String) (policy : ToolPolicy) (r : ResolvedToolPolicy)
    → IsSound r
    → SoundUnlessInvalid (with_sandbox lower policy r)
unfolding with_sandbox
with_sandbox_lem lower policy r s =
    let value = normalized_policy_value lower policy.sandbox_profile in
    elim (Bool-cases (is_empty value)) [
      | inl t ↦ rw t (λ h. s)
      | inr n ↦ rw n (sandbox_override_lem (parse_sandbox_profile value) r (λ h. s))
    ]

with_approval_lem :
    (lower : String → String) (policy : ToolPolicy) (r : ResolvedToolPolicy)
    → SoundUnlessInvalid r
    → SoundUnlessInvalid (with_approval lower policy r)
unfolding with_approval
with_approval_lem lower policy r s =
    let value = normalized_policy_value lower policy.approval_policy in
    elim (Bool-cases (is_empty value)) [
      | inl t ↦ rw t s
      | inr n ↦ rw n (approval_override_lem value r s)
    ]

module _ (lower : String → String) (policy : ToolPolicy) where
  resolve_lem :
      (resolve_tool_policy lower policy).known ≡ true
      → SoundUnlessInvalid (resolve_tool_policy lower policy)
  unfolding resolve_tool_policy apply_tool_policy_overrides
  resolve_lem known =
      let base = policy_of_mode (normalized_permission_mode lower policy.permission_mode) policy in
      elim (Bool-cases base.known) [
        | inr n ↦ let no : false ≡ true = rw n at known in ground arith
        | inl t ↦
            let whole = with_approval lower policy (with_sandbox lower policy base) in
            subst (λ b. SoundUnlessInvalid (if not b then base else whole)) (sym t)
              (with_approval_lem lower policy (with_sandbox lower policy base) (
                with_sandbox_lem lower policy base
                  (mode_lem (normalized_permission_mode lower policy.permission_mode) policy t)))
      ]

write_lem :
    (a : AuthorityPolicy) (p : String)
    → (authorize_write a p).allowed ≡ true
    → ((a ≡ AuthorityPolicy.workspace_write) ⊎ (a ≡ AuthorityPolicy.full_access))
      × (str_eq p "on_request" ≡ false)
unfolding authorize_write
write_lem AuthorityPolicy.read_only p h = ground arith
write_lem AuthorityPolicy.unknown p h = ground arith
write_lem AuthorityPolicy.workspace_write p h = (inl refl, ground arith)
write_lem AuthorityPolicy.full_access p h = (inr refl, ground arith)

-- What lets a write through.
abbrev pub MayWrite : ResolvedToolPolicy → Type 0
MayWrite r =
    IsSound r
    × (r.approval_policy ≡ "never")
    × ((r.authority_policy ≡ AuthorityPolicy.workspace_write)
        ⊎ (r.authority_policy ≡ AuthorityPolicy.full_access))

may_write_lem :
    (r : ResolvedToolPolicy)
    → (r.known ≡ true → SoundUnlessInvalid r)
    → (authorize_resolved r "write").allowed ≡ true
    → MayWrite r
unfolding authorize_resolved
may_write_lem r sound h = elim (Bool-cases r.known) [
  | inr n ↦ ground arith
  | inl t ↦ elim (Bool-cases (is_empty r.invalid_reason)) [
    | inr n ↦ ground arith
    | inl v ↦
        let s = sound t v in
        let (a, p) = write_lem r.authority_policy r.approval_policy (ground arith) in
        (
          s,
          elim s.approval [
            | inl e ↦ e
            | inr e ↦ ground (arith, eq_iff r.approval_policy "on_request")
          ],
          a,
        )
  ]
]

-- Whatever lower-casing does: if a write tool is authorised, the resolved policy has the authority
-- workspace_write or full_access, the approval policy never, and a sandbox profile that the
-- authority permits and that is not os_workspace.
pub write-MayWrite :
    (lower : String → String) (policy : ToolPolicy)
    → (authorize_kernel_tool lower policy "write").allowed ≡ true
    → MayWrite (resolve_tool_policy lower policy)
unfolding authorize_kernel_tool
write-MayWrite lower policy h =
    may_write_lem (resolve_tool_policy lower policy) (resolve_lem lower policy) h
