-- ===== src/Kernel/LoopGuard/Streak.antt =====
-- The guard's counts after a history of calls, against a count of the repetitions in it.
use genesis.Prelude.{
  ℕ, ◌+◌, String, ◌≡◌, refl, sym, ◌↔◌, true, false, not, ◌&&◌, ◌||◌, inl, inr, Option, none, some,
  List, [], ◌∷◌, ltb, str_eq, if◌then◌else◌, arith, Bool-cases, Option-cases, eq_iff,
}
use genesis.Prelude.Text.{is_empty, trim}
use genesis.Prelude.Dict.{Dict, get, put, get-put_ne}
use genesis.Prelude.Results.{ok, and_then, Result-cases}
use genesis.Kernel.LoopGuard.Types.{
  ToolLoopGuard, ModelToolResult, PreparedModelToolCall, Json, new_tool_loop_guard,
}
use genesis.Kernel.LoopGuard.{
  count_of, only_tracks, string_map_value, failure_signature_of, result_succeeded,
  result_with_failure_loop_guard, failure_projection, observe_signature, counted_success,
  observe_success, after_failure, guarded, after_execute, before_execute,
}

abbrev pub History : Type 0
History = List (PreparedModelToolCall × ModelToolResult)

-- The guard after the executions of a turn, the latest first.
unfoldable pub guard_after : {V : Type 0} → Json V → History → ToolLoopGuard
guard_after j [] = new_tool_loop_guard
guard_after j ((call, result) ∷ earlier) = (after_execute j call result (guard_after j earlier)).1

-- How many of the latest successes bear this signature, up to the first that does not.
unfoldable pub streak : {V : Type 0} → Json V → String → History → ℕ
streak j signature [] = 0
streak j signature ((call, result) ∷ earlier) =
    let n = streak j signature earlier in
    if not (result_succeeded j result)
    then n
    else if str_eq (trim call.repeat_success_signature) signature
    then n + 1
    else 0

-- What the counts say of a history: at most one signature has a streak, and which one.
unfoldable Tracks : (String → ℕ) → Dict ℕ → Type 0
Tracks n [] = (σ : String) → is_empty σ ≡ false → n σ ≡ 0
Tracks n ((k, m) ∷ []) = (σ : String) → is_empty σ ≡ false → n σ ≡ (if str_eq k σ then m else 0)
Tracks n (e ∷ f ∷ rest) = true ≡ false

Tracks-count :
    (n : String → ℕ) (counts : Dict ℕ) (σ : String)
    → Tracks n counts
    → is_empty σ ≡ false
    → count_of counts σ ≡ n σ
unfolding Tracks count_of get
Tracks-count n [] σ t e = sym (t σ e)
Tracks-count n ((k, m) ∷ []) σ t e = ground (arith, t σ e)
Tracks-count n (p ∷ q ∷ rest) σ t e = ground arith

counted_success-Tracks :
    (n n' : String → ℕ) (s : String) (counts : Dict ℕ)
    → ((σ : String) → n' σ ≡ (if str_eq s σ then n σ + 1 else 0))
    → Tracks n counts
    → Tracks n' (counted_success s counts)
unfolding Tracks counted_success count_of get put only_tracks
counted_success-Tracks n n' s [] step t = elim (Bool-cases (is_empty s)) [
  | inl e ↦ rw e (λ σ f. ground (arith, step σ, eq_iff s σ))
  | inr e ↦ rw e (λ σ f. ground (arith, step σ, t σ f))
]
counted_success-Tracks n n' s ((k, m) ∷ []) step t = elim (Bool-cases (is_empty s)) [
  | inl e ↦ rw e (λ σ f. ground (arith, step σ, eq_iff s σ))
  | inr e ↦ elim (Bool-cases (str_eq k s)) [
    | inl g ↦
        rw (e, g, ◌&&◌, if◌then◌else◌, g)
          (λ σ f. ground (arith, step σ, t σ f, eq_iff s σ, eq_iff k s, eq_iff k σ))
    | inr g ↦
        rw (e, g, ◌&&◌, if◌then◌else◌)
          (λ σ f. ground (arith, step σ, t σ f, eq_iff s σ, eq_iff k s, eq_iff k σ))
  ]
]
counted_success-Tracks n n' s (p ∷ q ∷ rest) step t = ground arith

module _ {V : Type 0} (j : Json V)
    (kept : (payload : Dict V) (content : String)
      → j.marshal payload ≡ ok content
      → (read : Dict V) × (j.unmarshal content ≡ some read)
        × (string_map_value j read "status" ≡ string_map_value j payload "status")) where
  put-status :
      (payload : Dict V) (v : V)
      → string_map_value j (put payload "loop_guard" v) "status"
        ≡ string_map_value j payload "status"
  unfolding string_map_value
  put-status payload v = rw (get-put_ne payload "loop_guard" "status" v refl) refl

  -- A guard's note on a failed result does not make it a success.
  noted_fails :
      (result noted : ModelToolResult) (n : ℕ)
      → result_succeeded j result ≡ false
      → result_with_failure_loop_guard j result n ≡ ok noted
      → result_succeeded j noted ≡ false
  unfolding result_with_failure_loop_guard and_then
  noted_fails result noted n fails h = elim (Option-cases (j.unmarshal result.content)) [
    | inl e ↦ ground (arith, h, e)
    | inr (payload, e) ↦
        let note = j.of_projection (failure_projection j n) in
        elim (Result-cases (j.marshal (put payload "loop_guard" note))) [
          | inl (m, f) ↦ ground (arith, h, e, f)
          | inr (content, f) ↦
              let (read, g, same) = kept (put payload "loop_guard" note) content f in
              ground (arith, h, e, f, g, same, put-status payload note)
        ]
  ]

  failure_fails :
      (result : ModelToolResult) (σ : String)
      → failure_signature_of j result ≡ some σ
      → result_succeeded j result ≡ false
  failure_fails result σ h = elim (Option-cases (j.unmarshal result.content)) [
    | inl e ↦ rw (e, result_succeeded) refl
    | inr (payload, e) ↦ ground (arith, h, e)
  ]

  counts_after_signature :
      (seen : Option String) (call : PreparedModelToolCall) (result : ModelToolResult)
      (g : ToolLoopGuard)
      → ((σ : String) → seen ≡ some σ → result_succeeded j result ≡ false)
      → (after_failure j call (observe_signature j seen result g)).1.repeated_success_count ≡ (
          if result_succeeded j result
          then counted_success (trim call.repeat_success_signature) g.repeated_success_count
          else g.repeated_success_count)
  unfolding observe_signature observe_success
  counts_after_signature none call result g fails = ground arith
  counts_after_signature (some σ) call result g fails =
      elim (Result-cases (result_with_failure_loop_guard j result (g.failure_count + 1))) [
        | inl (m, e) ↦ ground (arith, e, fails σ refl)
        | inr (noted, e) ↦ ground (
          arith,
          e,
          fails σ refl,
          noted_fails result noted (g.failure_count + 1) (fails σ refl) e,
        )
      ]

  guard_after-Tracks :
      (history : History)
      → Tracks (λ σ. streak j σ history) (guard_after j history).repeated_success_count
  unfolding guard_after streak Tracks after_execute
  guard_after-Tracks [] = λ σ e. refl
  guard_after-Tracks ((call, result) ∷ earlier) =
      let g = guard_after j earlier in
      let after =
        counts_after_signature (failure_signature_of j result) call result g
          (failure_fails result) in
      elim (Bool-cases (result_succeeded j result)) [
        | inl e ↦
            rw (after, e)
              (counted_success-Tracks (λ σ. streak j σ earlier) _ _ g.repeated_success_count
                (λ σ. refl) (guard_after-Tracks earlier))
        | inr e ↦ rw (after, e) (guard_after-Tracks earlier)
      ]

  -- For a JSON library that keeps a payload's status through marshalling and unmarshalling: after
  -- any history of executions, a call is executed exactly when it bears no signature of a
  -- repeatable effect, or fewer than two successes with its signature are the latest successes.
  pub before_execute_iff :
      (history : History) (call : PreparedModelToolCall)
      → before_execute j call (guard_after j history) ≡ ok none ↔ (
          (is_empty (trim call.repeat_success_signature)
            || ltb (streak j (trim call.repeat_success_signature) history) 2)
          ≡ true)
  unfolding before_execute and_then
  before_execute_iff history call =
      let σ = trim call.repeat_success_signature in
      let g = guard_after j history in
      let counts = g.repeated_success_count in
      elim (Bool-cases (is_empty σ)) [
        | inl e ↦ (λ h. ground (arith, e), λ h. ground (arith, e))
        | inr e ↦
            let known =
              Tracks-count (λ τ. streak j τ history) counts σ (guard_after-Tracks history) e in
            elim (Result-cases (j.marshal_guarded (guarded j call (count_of counts σ)))) [
              | inl (m, f) ↦
                  (λ h. ground (arith, e, known, f, h), λ h. ground (arith, e, known, f, h))
              | inr (c, f) ↦
                  (λ h. ground (arith, e, known, f, h), λ h. ground (arith, e, known, f, h))
            ]
      ]
