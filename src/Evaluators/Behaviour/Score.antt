-- ===== src/Evaluators/Behaviour/Score.antt =====
-- The score of a trace in evaluators/trajectory.py.
use evalstack.Prelude.{◌+◌, ◌-◌, ◌*◌, ◌≤◌, ◌<◌, ◌≡◌, true, if◌then◌else◌, arith}
use evalstack.Prelude.Ratio.{Ratio, zero_ratio, one_ratio, IsUnit, ratio_eq}
use evalstack.Prelude.Mean.{times-pos, times_mono}
use evalstack.Evaluators.Behaviour.{
  TrajectoryWeights, TrajectorySignals, clipped, penalty_of, score_signals,
}

clipped-IsUnit : (p c : Ratio) → 0 < p.den → 0 < c.den → IsUnit (clipped p c)
clipped-IsUnit p c h k = ground (arith, times-pos c.den p.den k h)

-- Weights that are proper fractions.
pub record AreProper (w : TrajectoryWeights) : Type 0 where
  pub reads : 0 < w.redundant_read.den
  pub failures : 0 < w.failed_tool_call.den
  pub edits : 0 < w.blind_edit.den
  pub excess : 0 < w.excess_tool_call.den
  pub credit : 0 < w.recovery_credit.den

-- No redundant read, no failed call, no blind edit, and no more calls than the allowance.
abbrev pub IsClean : TrajectoryWeights → TrajectorySignals → Type 0
IsClean w s =
    (s.redundant_reads ≡ 0)
    × (s.failed_tool_calls ≡ 0)
    × (s.blind_edits ≡ 0)
    × (s.tool_calls ≤ w.tool_call_budget)

clipped-full :
    (p c : Ratio) → 0 < p.den → 0 < c.den → p.num ≡ 0 → ratio_eq (clipped p c) one_ratio ≡ true
clipped-full p c h k e = rw e (
    ground (arith, times-pos c.den p.den k h, times_mono c.den (c.den + c.num) p.den (omega arith)))

penalty-positive :
    (w : TrajectoryWeights) (s : TrajectorySignals) → AreProper w → 0 < (penalty_of w s).den
unfolding penalty_of
penalty-positive w s a =
    let d1 = times-pos w.redundant_read.den w.failed_tool_call.den a.reads a.failures in
    let d2 =
      times-pos (w.redundant_read.den * w.failed_tool_call.den) w.blind_edit.den d1 a.edits in
    times-pos (w.redundant_read.den * w.failed_tool_call.den * w.blind_edit.den)
      w.excess_tool_call.den d2 a.excess

penalty-clean :
    (w : TrajectoryWeights) (s : TrajectorySignals) → IsClean w s → (penalty_of w s).num ≡ 0
unfolding penalty_of
penalty-clean w s c =
    let e : s.tool_calls - w.tool_call_budget ≡ 0 = omega arith in
    rw (c.0) (rw (c.1) (rw (c.2) (rw e omega arith)))

-- Under weights that are proper fractions the score of any signals is a fraction between 0 and 1.
score_signals-IsUnit :
    (w : TrajectoryWeights) (s : TrajectorySignals) → AreProper w → IsUnit (score_signals w s)
unfolding score_signals
score_signals-IsUnit w s a =
    let p = penalty_of w s in
    let c : Ratio = if s.recovered_after_failure then w.recovery_credit else zero_ratio in
    let pd : 0 < p.den = penalty-positive w s a in
    let cd : 0 < c.den = ground (arith, a.credit) in clipped-IsUnit p c pd cd

-- Under such weights a clean trace has the full score.
score_signals-IsClean :
    (w : TrajectoryWeights) (s : TrajectorySignals)
    → AreProper w
    → IsClean w s
    → ratio_eq (score_signals w s) one_ratio ≡ true
unfolding score_signals
score_signals-IsClean w s a clean =
    let c : Ratio = if s.recovered_after_failure then w.recovery_credit else zero_ratio in
    clipped-full (penalty_of w s) c (penalty-positive w s a) (ground (arith, a.credit))
      (penalty-clean w s clean)
