-- ===== src/Ovs/Transaction.antt =====
-- What `acc_ovs_add_rules` of rule/openvswitch/acc_ovs_rule.c does to the switch, on every path.
use mathlib.Core.Path.{ap₂}
use be_la.Prelude.{
  ◌+◌, ◌<◌, ◌≡◌, ◌≢◌, sym, ◌∙◌, ap, Bool, true, false, some, List, [], ◌∷◌, ◌++◌, Status, success,
  failure, arith, length, ◌⊎◌, inl, inr, append_assoc, append-nil, subst, head_byte,
}
use be_la.Context.{AccContext}
use be_la.Flow.{AccFlow}
use be_la.Ovs.Rule.{AccOfctlRule}
use be_la.Ovs.Edit.{
  Host, Executed, OvsState, entry, flush_command, make_rules, run_rules, after_loop,
  acc_ovs_edit_rules, acc_ovs_remove_rules,
}
use be_la.Ovs.Loop.{
  AllSupported, Made, make_rules-Made, NamesFit, flush_rules_lem, entries, RunResult,
  run_rules-RunResult,
}

module _ (h : Host) (state : AccContext) where
  -- Some flow has no rule: nothing is executed.
  abbrev pub Refused : List AccFlow → OvsState → Status × OvsState → Type 0
  Refused flows s o =
      (before : List AccFlow) × (f : AccFlow) × (after : List AccFlow) × (flows
        ≡ before ++ (f ∷ after))
      × (head_byte f.match.protocol ≢ 6)
      × (head_byte f.match.protocol ≢ 17)
      × (o ≡ (failure, s))

  -- One command for each flow, in order.
  abbrev pub Added : Bool → List AccFlow → OvsState → Status × OvsState → Type 0
  Added d flows s o =
      AllSupported flows
      × (rules : List AccOfctlRule) × (make_rules state flows ≡ some rules)
      × (length rules ≡ length flows)
      × (o ≡ (
        success,
        record { executed = s.executed ++ entries d state rules; live_rules = s.live_rules + 1 },
      ))

  -- The commands of a nonempty first part of the flows, and what follows a failure.
  abbrev pub Undone : Bool → List Executed → List AccFlow → OvsState → Status × OvsState → Type 0
  Undone d last flows s o =
      AllSupported flows
      × (before : List AccOfctlRule) × (after : List AccOfctlRule) × (make_rules state flows
          ≡ some (before ++ after))
      × (0 < length before)
      × (o ≡ (
        failure,
        record {
          executed = s.executed ++ (entries d state before ++ last);
          live_rules = s.live_rules;
        },
      ))

  -- The flush command, for additions only.
  abbrev pub cleanup : Bool → List Executed
  cleanup true = []
  cleanup false = entry state (flush_command state) ∷ []

  after_loop-result :
      (d : Bool) (flows : List AccFlow) (s : OvsState) (rules : List AccOfctlRule)
      (o : Status × OvsState)
      → NamesFit state
      → AllSupported flows
      → make_rules state flows ≡ some rules
      → length rules ≡ length flows
      → RunResult d state rules (record s { live_rules = s.live_rules + 1 }) o
      → Added d flows s (after_loop h state d o)
        ⊎ Undone d (cleanup d) flows s (after_loop h state d o)
  unfolding after_loop
  after_loop-result d flows s rules (success, s') fits sup m n e =
      inl (sup, rules, m, n, ap (λ t. (success, t)) e)
  after_loop-result true flows s rules (failure, s') fits sup m n (before, after, split, ran, e) =
      inr (
        sup,
        before,
        after,
        m ∙ ap some split,
        ran,
        rw (e, append-nil (entries true state before))
            (ap
              (λ k. (
                failure,
                record { executed = s.executed ++ entries true state before; live_rules = k },
              ))
              (omega arith)),
      )
  after_loop-result false flows s rules (failure, s') fits sup m n (before, after, split, ran, e) =
      inr (
        sup,
        before,
        after,
        m ∙ ap some split,
        ran,
        rw (e, flush_rules_lem h state _ fits)
            (ap₂ (λ l k. (failure, record { executed = l; live_rules = k }))
              (append_assoc s.executed (entries false state before) (cleanup false)) (omega arith)),
      )

  abbrev pub EditResult : Bool → List AccFlow → OvsState → Status × OvsState → Type 0
  EditResult d flows s o = Refused flows s o ⊎ (Added d flows s o ⊎ Undone d (cleanup d) flows s o)

  edit-Made :
      (d : Bool) (flows : List AccFlow) (s : OvsState)
      → NamesFit state
      → Made state flows
      → EditResult d flows s (acc_ovs_edit_rules h state flows d true s)
  unfolding acc_ovs_edit_rules
  edit-Made d flows s fits (inr (before, f, after, split, x, y, q)) =
      inl (before, f, after, split, x, y, rw (q, acc_ovs_edit_rules))
  edit-Made d flows s fits (inl (rs, q, bs, sup, n)) =
      let t = record s { live_rules = s.live_rules + 1 } in
      let o = run_rules h state d rs t in
      let whole : acc_ovs_edit_rules h state flows d true s ≡ after_loop h state d o =
        rw (q, acc_ovs_edit_rules) in
      inr (
        subst (λ u. Added d flows s u ⊎ Undone d (cleanup d) flows s u) (sym whole)
          (after_loop-result d flows s rs o fits sup q n
            (run_rules-RunResult h d state fits rs t bs)))

-- Under the same conditions removing flows has the same three ends, with `del-flow` commands,
-- but no flush follows the commands of the third.
pub remove_rules_lem :
    (h : Host) (state : AccContext) (flows : List AccFlow) (s : OvsState)
    → NamesFit state
    → EditResult h state true flows s (acc_ovs_remove_rules h state flows true s)
unfolding acc_ovs_remove_rules
remove_rules_lem h state flows s fits =
    edit-Made h state true flows s fits (make_rules-Made state flows)
