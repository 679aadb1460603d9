-- ===== src/Kernel/LoopGuard/Failures.antt =====
-- When the guard adds its note to a failed result, against a count of the failures before it.
use genesis.Prelude.{
  ℕ, ◌+◌, String, ◌≡◌, Option, none, some, [], ◌∷◌, ltb, str_eq, if◌then◌else◌, arith, inl, inr,
  eq_iff, ◌⊎◌, sym, subst, ◌∙◌, ◌<◌, ◌≤◌, refl, Bool-cases, Option-cases,
}
use genesis.Prelude.Results.{Result, err, ok, and_then, Result-cases}
use genesis.Prelude.Dict.{Dict, get, put, get-put}
use genesis.Kernel.LoopGuard.Types.{
  ToolLoopGuardProjection, ToolLoopGuard, ModelToolResult, PreparedModelToolCall, Json,
}
use genesis.Kernel.LoopGuard.{
  failure_signature_of, result_with_failure_loop_guard, failure_projection, observe_signature,
  observe_success, after_failure, after_execute,
}
use genesis.Kernel.LoopGuard.Streak.{History, guard_after}

module _ {V : Type 0} (j : Json V) where
  abbrev one_more : String → ℕ → Option String → ℕ
  one_more σ n none = 0
  one_more σ n (some s) = if str_eq s σ then n + 1 else 0

  -- How many of the latest results failed with this signature.
  unfoldable pub same_failures : String → History → ℕ
  same_failures σ [] = 0
  same_failures σ ((call, result) ∷ earlier) =
      one_more σ (same_failures σ earlier) (failure_signature_of j result)

  unfoldable Failed : (String → ℕ) → ToolLoopGuard → Type 0
  Failed n g = (σ : String) → n σ ≡ (if str_eq σ g.failure_signature then g.failure_count else 0)

  observe_signature-Failed :
      (seen : Option String) (call : PreparedModelToolCall) (result : ModelToolResult)
      (n : String → ℕ) (g : ToolLoopGuard)
      → Failed n g
      → Failed
          (λ σ. one_more σ (n σ) seen)
          (after_failure j call (observe_signature j seen result g)).1
  unfolding Failed observe_signature observe_success
  observe_signature-Failed none call result n g old σ = ground (arith, eq_iff σ "")
  observe_signature-Failed (some s) call result n g old σ =
      elim (Result-cases (result_with_failure_loop_guard j result (g.failure_count + 1))) [
        | inl (m, e) ↦ ground (
          arith,
          e,
          old σ,
          eq_iff s σ,
          eq_iff σ s,
          eq_iff s g.failure_signature,
          eq_iff σ g.failure_signature,
        )
        | inr (noted, e) ↦ ground (
          arith,
          e,
          old σ,
          eq_iff s σ,
          eq_iff σ s,
          eq_iff s g.failure_signature,
          eq_iff σ g.failure_signature,
        )
      ]

  guard_after-Failed :
      (history : History) → Failed (λ σ. same_failures σ history) (guard_after j history)
  unfolding guard_after same_failures Failed after_execute
  guard_after-Failed [] = λ σ. ground arith
  guard_after-Failed ((call, result) ∷ earlier) =
      observe_signature-Failed (failure_signature_of j result) call result
        (λ σ. same_failures σ earlier) (guard_after j earlier) (guard_after-Failed earlier)

  -- A payload with the guard's note on so many failures, and every other key as it was.
  pub record IsNoted (payload noted : Dict V) (count : ℕ) : Type 0 where
    pub note : ToolLoopGuardProjection
    pub code : note.code ≡ "repeated_tool_failure"
    pub kind : note.signature_kind ≡ "tool_failure"
    pub repeats : note.repeat_count ≡ count
    pub keys :
        (key : String)
        → get noted key
          ≡ (if str_eq "loop_guard" key then some (j.of_projection note) else get payload key)

  -- The answer is the result with the text of such a payload for its content, or the error of the
  -- marshalling that makes this text.
  abbrev pub Annotated : ModelToolResult → ℕ → Result ModelToolResult → Type 0
  Annotated result count answer =
      (payload : Dict V) × (noted : Dict V) × (j.unmarshal result.content ≡ some payload)
      × IsNoted payload noted count
      × (((content : String) × (j.marshal noted ≡ ok content)
            × (answer ≡ ok (record result { content = content })))
          ⊎ ((e : String) × (j.marshal noted ≡ err e) × (answer ≡ err e)))

  noted_lem :
      (result : ModelToolResult) (count : ℕ) (payload : Dict V)
      → j.unmarshal result.content ≡ some payload
      → Annotated result count (result_with_failure_loop_guard j result count)
  unfolding result_with_failure_loop_guard and_then
  noted_lem result count payload e =
      let note = failure_projection j count in
      let noted = put payload "loop_guard" (j.of_projection note) in
      let is_noted : IsNoted payload noted count = record {
        note = note;
        code = refl;
        kind = refl;
        repeats = refl;
        keys = λ key. get-put payload "loop_guard" key (j.of_projection note);
      } in
      (
        payload,
        noted,
        e,
        is_noted,
        elim (Result-cases (j.marshal noted)) [
          | inl (m, f) ↦ inr (m, f, ground (arith, e, f))
          | inr (content, f) ↦ inl (content, f, ground (arith, e, f))
        ],
      )

  -- Only a result with a payload fails with a signature.
  failure_payload :
      (result : ModelToolResult) (σ : String)
      → failure_signature_of j result ≡ some σ
      → (payload : Dict V) × (j.unmarshal result.content ≡ some payload)
  failure_payload result σ h = elim (Option-cases (j.unmarshal result.content)) [
    | inl e ↦ ground (arith, h, e)
    | inr (payload, e) ↦ (payload, e)
  ]

  after_execute_lem :
      (history : History) (call : PreparedModelToolCall) (result : ModelToolResult) (σ : String)
      → failure_signature_of j result ≡ some σ
      → (after_execute j call result (guard_after j history)).0 ≡ (
          if ltb (same_failures σ history) 2
          then ok result
          else result_with_failure_loop_guard j result (same_failures σ history + 1))
  unfolding after_execute observe_signature Failed
  after_execute_lem history call result σ h =
      let g = guard_after j history in
      let old = guard_after-Failed history σ in
      elim (Result-cases (result_with_failure_loop_guard j result (g.failure_count + 1))) [
        | inl (m, e) ↦ rw h (ground (arith, e, old, eq_iff σ g.failure_signature))
        | inr (noted, e) ↦ rw h (ground (arith, e, old, eq_iff σ g.failure_signature))
      ]

  -- After any history of executions, a result that fails with a signature comes back unchanged
  -- while fewer than two results with that signature are the latest ones. Otherwise its payload
  -- gets a note with the code `repeated_tool_failure` and the number of these failures, this one
  -- included, under the key `loop_guard`, the other keys stay, and the result comes back with the
  -- text of this payload for its content; where the payload cannot be marshalled, that error comes
  -- back instead.
  pub after_execute_notes :
      (history : History) (call : PreparedModelToolCall) (result : ModelToolResult) (σ : String)
      → failure_signature_of j result ≡ some σ
      → let n = same_failures σ history in
        let answer = (after_execute j call result (guard_after j history)).0 in
        (n < 2) × (answer ≡ ok result) ⊎ (2 ≤ n) × Annotated result (n + 1) answer
  after_execute_notes history call result σ h =
      let n = same_failures σ history in
      let answer = after_execute_lem history call result σ h in
      elim (Bool-cases (ltb n 2)) [
        | inl e ↦ inl (ground (arith, e), answer ∙ rw e refl)
        | inr e ↦
            let (payload, f) = failure_payload result σ h in
            inr (
              ground (arith, e),
              subst (Annotated result (n + 1)) (sym (answer ∙ rw e refl))
                  (noted_lem result (n + 1) payload f),
            )
      ]
