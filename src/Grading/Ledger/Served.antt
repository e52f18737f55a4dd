-- ===== src/Grading/Ledger/Served.antt =====
-- Sequences of calls of `OfficialGradingService` of backend/src/grading/application/service.py.
use onwlms.Prelude.{List, Option, String, [], nat_eq, pair_eq, string_eq, ℕ, ◌∷◌}
use onwlms.Core.{TenantActorContext, Uuid}
use onwlms.Core.Decimal.{Decimal}
use onwlms.Grading.Ledger.{Grows, Grows-refl, Grows-trans, IsLedger}
use onwlms.Grading.Ledger.Creates.{KeepsLedger}
use onwlms.Grading.Ledger.Methods.{
  accept-Keeps, configure_scale-Keeps, configure_template-Keeps, record_final_grade-Keeps,
  reject-Keeps, revise-Keeps,
}
use onwlms.Grading.Scales.{GradingScale, GradingScaleTemplate, kind_eq}
use onwlms.Grading.Service.{
  GradeInputs, GradingPorts, GradingWorld, configure_scale, configure_template,
}
use onwlms.Grading.Service.External.{accept_external_evidence, reject_external_evidence}
use onwlms.Grading.Service.Record.{record_final_grade}
use onwlms.Grading.Service.Revise.{service_revise_final_grade}

pub data GradingMethod : Type 0 where
  scale : GradingScale → GradingMethod
  template : Uuid → String → GradingScaleTemplate → GradingMethod
  record_grade : Uuid → Uuid → Decimal → Option String → GradeInputs → GradingMethod
  revise : Uuid → Decimal → String → Option Uuid → Option ℕ → GradeInputs → GradingMethod
  accept_evidence : Uuid → Uuid → Option String → GradeInputs → GradingMethod
  reject_evidence : Uuid → String → GradingMethod

-- The world after a call, whether it returns or raises.
unfoldable pub serve_grading :
    GradingPorts → TenantActorContext → GradingMethod → GradingWorld → GradingWorld
serve_grading ports context (GradingMethod.scale s) w = (configure_scale ports context s w).1
serve_grading ports context (GradingMethod.template id name t) w =
    (configure_template ports context id name t w).1
serve_grading ports context (GradingMethod.record_grade enrollment scale_id score why inputs) w =
    (record_final_grade ports context enrollment scale_id score why inputs w).1
serve_grading ports context (GradingMethod.revise id score why scale_id expected inputs) w =
    (service_revise_final_grade ports context id score why scale_id expected inputs w).1
serve_grading ports context (GradingMethod.accept_evidence id scale_id why inputs) w =
    (accept_external_evidence ports context id scale_id why inputs w).1
serve_grading ports context (GradingMethod.reject_evidence id reason) w =
    (reject_external_evidence ports context id reason w).1

-- Calls of any actors, one after the other.
unfoldable pub serve_gradings :
    GradingPorts → List (TenantActorContext × GradingMethod) → GradingWorld → GradingWorld
serve_gradings ports [] w = w
serve_gradings ports ((context, m) ∷ rest) w =
    serve_gradings ports rest (serve_grading ports context m w)

serve_grading-KeepsLedger :
    (ports : GradingPorts) (context : TenantActorContext) (m : GradingMethod) (w : GradingWorld)
    → KeepsLedger w.repository (serve_grading ports context m w).repository
unfolding serve_grading
serve_grading-KeepsLedger ports context (GradingMethod.scale s) w =
    (configure_scale-Keeps ports context s).at w
serve_grading-KeepsLedger ports context (GradingMethod.template id name t) w =
    (configure_template-Keeps ports context id name t).at w
serve_grading-KeepsLedger ports context (GradingMethod.record_grade e s score why inputs) w =
    (record_final_grade-Keeps ports context e s score why inputs).at w
serve_grading-KeepsLedger ports context (GradingMethod.revise id score why s expected inputs) w =
    (revise-Keeps ports context id score why s expected inputs).at w
serve_grading-KeepsLedger ports context (GradingMethod.accept_evidence id s why inputs) w =
    (accept-Keeps ports context id s why inputs).at w
serve_grading-KeepsLedger ports context (GradingMethod.reject_evidence id reason) w =
    (reject-Keeps ports context id reason).at w

serve_gradings-KeepsLedger :
    (ports : GradingPorts) (calls : List (TenantActorContext × GradingMethod)) (w : GradingWorld)
    → KeepsLedger w.repository (serve_gradings ports calls w).repository
unfolding serve_gradings
serve_gradings-KeepsLedger ports [] w l = (l, Grows-refl w.repository)
serve_gradings-KeepsLedger ports ((context, m) ∷ rest) w l =
    let (l', g) = serve_grading-KeepsLedger ports context m w l in
    let (l'', g') = serve_gradings-KeepsLedger ports rest (serve_grading ports context m w) l' in
    (l'', Grows-trans _ _ _ g g')

-- Whatever calls are served, by whatever actors and whether they return or raise, the repository
-- stays a ledger: each grade has passed its checks and stands under its own key, as the one grade
-- of its course enrollment, and its revisions, numbered from one without a gap, lead from a first
-- result to the current one.
pub serve_gradings-IsLedger :
    (ports : GradingPorts) (calls : List (TenantActorContext × GradingMethod)) (w : GradingWorld)
    → IsLedger w.repository
    → IsLedger (serve_gradings ports calls w).repository
serve_gradings-IsLedger ports calls w l = (serve_gradings-KeepsLedger ports calls w l).0

-- Whatever calls are served on a ledger, no grade is lost, its enrollment, its attempted credits and
-- the evidence of its first recording stay, and its history is only added to.
pub serve_gradings-Grows :
    (ports : GradingPorts) (calls : List (TenantActorContext × GradingMethod)) (w : GradingWorld)
    → IsLedger w.repository
    → Grows w.repository (serve_gradings ports calls w).repository
serve_gradings-Grows ports calls w l = (serve_gradings-KeepsLedger ports calls w l).1
