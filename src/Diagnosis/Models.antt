-- ===== src/Diagnosis/Models.antt =====
-- The two adapters to a language model, `ClaudeDiagnosis` (agent/diagnosis/claude.py) and
-- `GroqDiagnosis` (agent/diagnosis/groq_diagnosis.py). What a model answers to a prompt is a
-- parameter, and so are the texts of prompts and exceptions; timing and the application log are left
-- out.
use Prim.Native.String.{◌++◌ as join}
use downtime_aware_recovery.Common.{
  String, Bool, ◌||◌, Option, none, some, List, [], ◌∷◌, or_default, if◌then◌else◌,
}
use downtime_aware_recovery.Models.Json.{Json}
use downtime_aware_recovery.Models.Proposal.{DiagnosisProposal}
use downtime_aware_recovery.Pipeline.Stages.{DiagnosisInput, DiagnosisPort}
use downtime_aware_recovery.Diagnosis.Prompting.{
  Rejection, accepted, rejected, validate, evidence_fields, prompt_payload, tier2_fallback,
  tier3_fallback,
}
use downtime_aware_recovery.Diagnosis.Texts.{system_prompt, repair_suffix}
use downtime_aware_recovery.Text.{contains, lower}

-- What a call of a model gives: a text, or an exception, with the name of its type and its text.
pub data Reply : Type 0 where
  replied : String → Reply
  raised : String → String → Reply

-- The code outside this repository that a diagnosis relies on.
pub record Provider : Type 0 where
  pub dumps : Json → String
  pub decode : String → Option DiagnosisProposal
  -- `f"{type(e).__name__}: {e}"` of the exceptions of `validate`
  pub describe : Rejection → String
  -- `_call`, by the system prompt and the prompt
  pub call : String → String → Reply

pub data Attempt : Type 0 where
  answered : DiagnosisProposal → Attempt
  failed : String → Attempt

-- The body of the `try`, and the text of its handler.
unfoldable pub ask_model : Provider → String → Attempt
ask_model provider prompt = elim (provider.call system_prompt prompt) [
  | raised type text ↦ failed (join type (join ": " text))
  | replied raw ↦ elim (validate provider.decode raw evidence_fields) [
    | accepted p ↦ answered p
    | rejected why ↦ failed (provider.describe why)
  ]
]

-- What follows the loop.
unfoldable pub fallback : DiagnosisInput → Option String → DiagnosisProposal
fallback inp last_error = or_default (tier3_fallback inp last_error) (tier2_fallback inp last_error)

-- The loop, over the prompts of its rounds.
unfoldable pub ask_in_turn :
    Provider → DiagnosisInput → List String → Option String → DiagnosisProposal
ask_in_turn provider inp [] last_error = fallback inp last_error
ask_in_turn provider inp (prompt ∷ rest) last_error = elim (ask_model provider prompt) [
  | answered p ↦ p
  | failed e ↦ ask_in_turn provider inp rest (some e)
]

-- `build_prompt`.
unfoldable pub build_prompt : Provider → DiagnosisInput → String
build_prompt provider inp = provider.dumps (prompt_payload inp)

-- `ClaudeDiagnosis.diagnose`; that of `GroqDiagnosis` differs in the call alone.
unfoldable pub diagnose : Provider → DiagnosisPort
diagnose provider inp =
    let prompt = build_prompt provider inp in
    ask_in_turn provider inp (prompt ∷ join prompt repair_suffix ∷ []) none

-- `MODEL` and `FALLBACK_MODEL`.
pub data GroqModel : Type 0 where
  primary_model fallback_model : GroqModel

-- What `client.chat.completions.create` gives: the content of the first choice, which may be None.
pub data Completion : Type 0 where
  content : Option String → Completion
  refused : String → String → Completion

abbrev is_rate_limit : String → Bool
is_rate_limit text =
    contains "rate_limit" (lower text)
    || contains "429" (lower text)
    || contains "overloaded" (lower text)

-- `GroqDiagnosis._call`.
unfoldable pub groq_call : (GroqModel → String → String → Completion) → String → String → Reply
groq_call create system prompt = elim (create primary_model system prompt) [
  | content c ↦ replied (or_default "" c)
  | refused type text ↦
      let second = elim (create fallback_model system prompt) as (λ _. Reply) [
        | content c ↦ replied (or_default "" c)
        | refused _ _ ↦ raised type text
      ] in
      if is_rate_limit text then second else raised type text
]

-- `GroqDiagnosis.diagnose`.
unfoldable pub groq_diagnose : Provider → (GroqModel → String → String → Completion) → DiagnosisPort
groq_diagnose provider create = diagnose (record provider { call = groq_call create })
