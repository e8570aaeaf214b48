-- ===== src/Agent/Loop/Cited.antt =====
-- The calls that a trace records, in order, and the evidence that rests on them.
use settlement_ops.Base.{
  All, All-append, All-map-of, Bool, Bool-cases, List, Option, String, [], ap, false, if◌then◌else◌,
  includes, inl, inr, length, length-append, none, refl, some, str_eq, subst, suc, sym, true, zero,
  ℕ, ◌++◌, ◌+◌, ◌∙◌, ◌∷◌, ◌≡◌,
}
use settlement_ops.Tools.Evidence.{ToolName, calculate_expected_net_amount, get_settlement_breakup}
use settlement_ops.Agent.{
  AgentTrace, TraceAction, TraceSummary, add_id, add_ids, tool_called, tool_summary,
}
use settlement_ops.Agent.Loop.{ToolCall}

abbrev pub is_call : TraceAction → Bool
is_call tool_called = true
is_call _ = false

-- The tools that were called, in the order of the calls.
abbrev pub entry_tools : AgentTrace → List ToolName
entry_tools entry =
    if is_call entry.action then elim entry.tool [ none ↦ [] | some t ↦ t ∷ [] ] else []

abbrev pub tools_called : List AgentTrace → List ToolName
tools_called [] = []
tools_called (entry ∷ trace) = entry_tools entry ++ tools_called trace

abbrev pub tool_at : ℕ → List ToolName → Option ToolName
tool_at n [] = none
tool_at zero (t ∷ ts) = some t
tool_at (suc n) (t ∷ ts) = tool_at n ts

-- `P` holds of every id that a call cites, with the number of the call and its tool.
abbrev pub CallsWithin : (ℕ → ToolName → String → Type 0) → ToolCall → Type 0
CallsWithin P call = (n : ℕ) (tool : ToolName) → All (P n tool) (call n tool).record_ids

-- `P` holds of an id with the number of a call of the trace and the tool of that call.
abbrev pub Cited : (ℕ → ToolName → String → Type 0) → List AgentTrace → String → Type 0
Cited P trace id =
    (n : ℕ) × (tool : ToolName) × (tool_at n (tools_called trace) ≡ some tool) × P n tool id

-- The trace has all calls, and they cite the evidence.
abbrev pub Evidenced : (ℕ → ToolName → String → Type 0) → ℕ → List AgentTrace → List String → Type 0
Evidenced P calls trace ids = (length (tools_called trace) ≡ calls) × All (Cited P trace) ids

pub add_ids-All :
    (P : String → Type 0) (new ids : List String) → All P new → All P ids → All P (add_ids new ids)
unfolding add_ids add_id
add_ids-All P [] ids h k = k
add_ids-All P (x ∷ new) ids h k = elim (Bool-cases (includes str_eq x ids)) [
  | inl here_already ↦ rw here_already (add_ids-All P new ids h.1 k)
  | inr fresh ↦
      rw fresh (add_ids-All P new (ids ++ (x ∷ [])) h.1 (All-append P ids (x ∷ []) k (h.0, tt)))
]

append_assoc : (xs ys zs : List ToolName) → (xs ++ ys) ++ zs ≡ xs ++ (ys ++ zs)
append_assoc [] ys zs = refl
append_assoc (x ∷ xs) ys zs = ap (λ l. x ∷ l) (append_assoc xs ys zs)

append_nil : (xs : List ToolName) → xs ++ [] ≡ xs
append_nil [] = refl
append_nil (x ∷ xs) = ap (λ l. x ∷ l) (append_nil xs)

tools_called-append :
    (trace : List AgentTrace) (entry : AgentTrace)
    → tools_called (trace ++ (entry ∷ [])) ≡ tools_called trace ++ entry_tools entry
tools_called-append [] entry = append_nil (entry_tools entry)
tools_called-append (e ∷ trace) entry =
    ap (λ l. entry_tools e ++ l) (tools_called-append trace entry)
    ∙ sym (append_assoc (entry_tools e) (tools_called trace) (entry_tools entry))

tool_at-append :
    (n : ℕ) (xs ys : List ToolName) (t : ToolName)
    → tool_at n xs ≡ some t
    → tool_at n (xs ++ ys) ≡ some t
tool_at-append n [] ys t h = cc
tool_at-append zero (x ∷ xs) ys t h = h
tool_at-append (suc n) (x ∷ xs) ys t h = tool_at-append n xs ys t h

tool_at-last : (xs : List ToolName) (t : ToolName) → tool_at (length xs) (xs ++ (t ∷ [])) ≡ some t
tool_at-last [] t = refl
tool_at-last (x ∷ xs) t = tool_at-last xs t

later-Cited :
    (P : ℕ → ToolName → String → Type 0) (entry : AgentTrace) (trace : List AgentTrace)
    (ids : List String)
    → All (Cited P trace) ids
    → All (Cited P (trace ++ (entry ∷ []))) ids
later-Cited P entry trace ids h =
    All-map-of (Cited P trace) (Cited P (trace ++ (entry ∷ [])))
      (λ id cited. (
        cited.0,
        cited.1,
        ap (tool_at cited.0) (tools_called-append trace entry)
            ∙ tool_at-append cited.0 (tools_called trace) (entry_tools entry) cited.1 cited.2,
        cited.3,
      ))
      ids h

-- An entry that is no call changes nothing.
pub entry-Evidenced :
    (P : ℕ → ToolName → String → Type 0) (calls : ℕ) (entry : AgentTrace) (trace : List AgentTrace)
    (ids : List String)
    → is_call entry.action ≡ false
    → Evidenced P calls trace ids
    → Evidenced P calls (trace ++ (entry ∷ [])) ids
entry-Evidenced P calls entry trace ids other h = (
  ap length (tools_called-append trace entry)
      ∙ (ap (λ l. length (tools_called trace ++ l)) no_tool
          ∙ (ap length (append_nil (tools_called trace)) ∙ h.0)),
  later-Cited P entry trace ids h.1,
)
  where
    no_tool : entry_tools entry ≡ []
    no_tool = rw (other, entry_tools) refl

abbrev pub call_entry : ℕ → ToolName → TraceSummary → AgentTrace
call_entry step tool summary = record {
  step = step;
  action = tool_called;
  tool = some tool;
  summary = summary;
}

new-Cited :
    (P : ℕ → ToolName → String → Type 0) (tool : ToolName) (n : ℕ) (trace : List AgentTrace)
    (ids : List String)
    → tool_at n (tools_called trace) ≡ some tool
    → All (P n tool) ids
    → All (Cited P trace) ids
new-Cited P tool n trace ids at h =
    All-map-of (P n tool) (Cited P trace) (λ id holds. (n, tool, at, holds)) ids h

-- A call adds to the evidence what it cites.
pub call-Evidenced :
    (P : ℕ → ToolName → String → Type 0) (tool : ToolName) (calls step : ℕ) (summary : TraceSummary)
    (new : List String) (trace : List AgentTrace) (evidence : List String)
    → All (P calls tool) new
    → Evidenced P calls trace evidence
    → Evidenced P (calls + 1) (trace ++ (call_entry step tool summary ∷ [])) (add_ids new evidence)
call-Evidenced P tool calls step summary new trace evidence within h =
    let entry = call_entry step tool summary in
    let longer = tools_called-append trace entry in
    (
      ap length longer ∙ (length-append (tools_called trace) (tool ∷ []) ∙ ap (λ n. n + 1) h.0),
      add_ids-All _ new evidence
          (new-Cited P tool calls (trace ++ (entry ∷ [])) new
            (ap (tool_at calls) longer
              ∙ subst (λ n. tool_at n (tools_called trace ++ (tool ∷ [])) ≡ some tool) h.0
                  (tool_at-last (tools_called trace) tool))
            within)
          (later-Cited P entry trace evidence h.1),
    )

-- The evidence of the two calls that open an investigation.
pub opening-Evidenced :
    (P : ℕ → ToolName → String → Type 0) (call : ToolCall)
    → CallsWithin P call
    → Evidenced P 2
        (call_entry 0 get_settlement_breakup (tool_summary (call 0 get_settlement_breakup).summary)
          ∷ call_entry 0 calculate_expected_net_amount
              (tool_summary (call 1 calculate_expected_net_amount).summary)
          ∷ [])
        (add_ids
          (call 1 calculate_expected_net_amount).record_ids
          (add_ids (call 0 get_settlement_breakup).record_ids []))
opening-Evidenced P call within =
    call-Evidenced P calculate_expected_net_amount 1 0
      (tool_summary (call 1 calculate_expected_net_amount).summary)
      (call 1 calculate_expected_net_amount).record_ids
      (call_entry 0 get_settlement_breakup (tool_summary (call 0 get_settlement_breakup).summary)
        ∷ [])
      (add_ids (call 0 get_settlement_breakup).record_ids [])
      (within 1 calculate_expected_net_amount)
      (call-Evidenced P get_settlement_breakup 0 0
        (tool_summary (call 0 get_settlement_breakup).summary)
        (call 0 get_settlement_breakup).record_ids [] [] (within 0 get_settlement_breakup)
        (refl, tt))
