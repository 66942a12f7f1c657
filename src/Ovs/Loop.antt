-- ===== src/Ovs/Loop.antt =====
-- The loops of rule/openvswitch/acc_ovs_rule.c: which commands are executed.
use be_la.Prelude.{
  suc, ◌+◌, ◌≤◌, ◌<◌, ◌≡◌, ◌≢◌, refl, sym, ◌∙◌, ap, subst, Bool, true, false, Bytes, none, some,
  List, [], ◌∷◌, ◌++◌, Status, success, failure, arith, length, codes, c_str, drop, if◌then◌else◌,
  map, length-append, length-drop, ◌⊎◌, inl, inr, ltb-true, append_assoc, append-nil, head_byte,
}
use be_la.Context.{AccContext, hostname_size, bridge_size}
use be_la.Flow.{AccFlow}
use be_la.Ovs.Print.{print_d-le, print_x-le}
use be_la.Ovs.Rule.{AccOfctlRule, snprintf}
use be_la.Ovs.Build.{Built, BuildResult, build_decides}
use be_la.Ovs.Edit.{
  Host, Executed, OvsState, bridge_of, entry, result_of, execute_openflow_rule, buffer_size,
  flush_command, edit_command, acc_ovs_flush_rules, make_rules, if_done, run_rules,
}

-- A flow for which a rule is built: TCP or UDP.
abbrev pub Supported : AccFlow → Type 0
Supported f = (head_byte f.match.protocol ≡ 6) ⊎ (head_byte f.match.protocol ≡ 17)

abbrev pub AllSupported : List AccFlow → Type 0
AllSupported [] = Unit {0}
AllSupported (f ∷ fs) = Supported f × AllSupported fs

abbrev pub AllBuilt : AccContext → List AccOfctlRule → Type 0
AllBuilt state [] = Unit {0}
AllBuilt state (r ∷ rs) = Built state r × AllBuilt state rs

-- The rules of all flows, or a flow for which there is none.
abbrev pub Made : AccContext → List AccFlow → Type 0
Made state flows =
    ((rs : List AccOfctlRule) × (make_rules state flows ≡ some rs)
      × AllBuilt state rs
      × AllSupported flows
      × (length rs ≡ length flows))
    ⊎ ((before : List AccFlow) × (f : AccFlow) × (after : List AccFlow) × (flows
          ≡ before ++ (f ∷ after))
        × (head_byte f.match.protocol ≢ 6)
        × (head_byte f.match.protocol ≢ 17)
        × (make_rules state flows ≡ none))

pub make_rules-Made : (state : AccContext) (flows : List AccFlow) → Made state flows
unfolding make_rules
make_rules-Made state [] = inl ([], refl, tt, tt, refl)
make_rules-Made state (f ∷ fs) = cons (build_decides state f) (make_rules-Made state fs)
  where
    cons : BuildResult state f → Made state fs → Made state (f ∷ fs)
    cons (inr (a, b, e)) m = inr ([], f, fs, refl, a, b, ground (arith))
    cons (inl (s, r, e, b)) (inl (rs, q, bs, ss, n)) =
        inl (r ∷ rs, ground arith, (b, bs), (s, ss), ap suc n)
    cons (inl (s, r, e, b)) (inr (before, g, after, split, x, y, q)) =
        inr (f ∷ before, g, after, ap (◌∷◌ f) split, x, y, ground arith)

length-c_str-le : (b : Bytes) → length (c_str b) ≤ length b
length-c_str-le [] = omega arith
length-c_str-le (x ∷ xs) = ground (arith, length-c_str-le xs)

-- The bridge's name lies in its array.
abbrev pub NamesFit : AccContext → Type 0
NamesFit state = length state.names ≡ hostname_size + bridge_size

bridge-le : (state : AccContext) → NamesFit state → length (bridge_of state) ≤ 256
bridge-le state h =
    omega (
      arith,
      length-c_str-le (drop hostname_size state.names),
      length-drop hostname_size state.names,
    )

pub edit_command_fits :
    (d : Bool) (state : AccContext) (r : AccOfctlRule)
    → NamesFit state
    → Built state r
    → snprintf buffer_size (edit_command d state r) ≡ some (edit_command d state r)
unfolding snprintf edit_command
edit_command_fits d state r h b =
    rw (ltb-true (length (edit_command d state r)) buffer_size (size d))
  where
    verb : (d : Bool) → length (if d then codes "del-flow" else codes "add-flow") ≡ 8
    verb true = refl
    verb false = refl

    size : (d : Bool) → length (edit_command d state r) < buffer_size
    size d = simp length-append (
        omega (
          arith,
          verb d,
          bridge-le state h,
          b.match_fits,
          b.action_fits,
          print_x-le r.cookie,
          print_d-le r.priority,
          print_d-le r.table,
        ))

pub flush_command_fits :
    (state : AccContext)
    → NamesFit state
    → snprintf buffer_size (flush_command state) ≡ some (flush_command state)
unfolding snprintf flush_command
flush_command_fits state h = rw (ltb-true (length (flush_command state)) buffer_size size)
  where
    size : length (flush_command state) < buffer_size
    size = simp length-append (omega (arith, bridge-le state h, print_x-le state.hostid))

-- The log entries of the commands for some rules.
abbrev pub entries : Bool → AccContext → List AccOfctlRule → List Executed
entries d state = map (λ r. entry state (edit_command d state r))

-- What the loop leaves: all commands executed; or those up to and with the first that failed.
abbrev pub RunResult : Bool → AccContext → List AccOfctlRule → OvsState → Status × OvsState → Type 0
RunResult d state rules s (success, s') =
    s' ≡ record s { executed = s.executed ++ entries d state rules }
RunResult d state rules s (failure, s') =
    (before : List AccOfctlRule) × (after : List AccOfctlRule) × (rules ≡ before ++ after)
    × (0 < length before)
    × (s' ≡ record s { executed = s.executed ++ entries d state before })

module _ (h : Host) (d : Bool) (state : AccContext) (fits : NamesFit state) where
  -- The state behind the command for `r`.
  abbrev ran : AccOfctlRule → OvsState → OvsState
  ran r s = record s { executed = s.executed ++ (entry state (edit_command d state r) ∷ []) }

  longer :
      (r : AccOfctlRule) (rs : List AccOfctlRule) (s : OvsState)
      → record (ran r s) { executed = (ran r s).executed ++ entries d state rs }
        ≡ record s { executed = s.executed ++ entries d state (r ∷ rs) }
  longer r rs s =
      ap (λ l. record s { executed = l })
        (append_assoc s.executed (entry state (edit_command d state r) ∷ []) (entries d state rs))

  after_ran :
      (r : AccOfctlRule) (rs : List AccOfctlRule) (s : OvsState) (o : Status × OvsState)
      → RunResult d state rs (ran r s) o
      → RunResult d state (r ∷ rs) s o
  after_ran r rs s (success, s') e = e ∙ longer r rs s
  after_ran r rs s (failure, s') (before, after, split, some_ran, e) =
      (r ∷ before, after, ap (◌∷◌ r) split, omega arith, e ∙ longer r before s)

  after_one :
      (r : AccOfctlRule) (rs : List AccOfctlRule) (s : OvsState) (st : Status)
      (k : OvsState → Status × OvsState)
      → RunResult d state rs (ran r s) (k (ran r s))
      → RunResult d state (r ∷ rs) s (if_done (st, ran r s) k)
  after_one r rs s success k e = after_ran r rs s (k (ran r s)) e
  after_one r rs s failure k e = (r ∷ [], rs, refl, omega arith, refl)

  run_rules-cons :
      (r : AccOfctlRule) (rs : List AccOfctlRule) (s : OvsState)
      → Built state r
      → run_rules h state d (r ∷ rs) s
        ≡ if_done
            (result_of h state (length s.executed) (edit_command d state r), ran r s)
            (λ s'. run_rules h state d rs s')
  unfolding run_rules execute_openflow_rule
  run_rules-cons r rs s b = rw (edit_command_fits d state r fits b, run_rules)

  pub run_rules-RunResult :
      (rules : List AccOfctlRule) (s : OvsState)
      → AllBuilt state rules
      → RunResult d state rules s (run_rules h state d rules s)
  unfolding run_rules
  run_rules-RunResult [] s b = ap (λ l. record s { executed = l }) (sym (append-nil s.executed))
  run_rules-RunResult (r ∷ rs) s (b, bs) =
      subst (RunResult d state (r ∷ rs) s) (sym (run_rules-cons r rs s b)) (
        after_one r rs s (result_of h state (length s.executed) (edit_command d state r))
          (λ s'. run_rules h state d rs s') (run_rules-RunResult rs (ran r s) bs))

-- `acc_ovs_flush_rules` executes its one command.
pub flush_rules_lem :
    (h : Host) (state : AccContext) (s : OvsState)
    → NamesFit state
    → acc_ovs_flush_rules h state s ≡ (
      result_of h state (length s.executed) (flush_command state),
      record s { executed = s.executed ++ (entry state (flush_command state) ∷ []) },
    )
unfolding acc_ovs_flush_rules execute_openflow_rule
flush_rules_lem h state s fits = rw (flush_command_fits state fits, acc_ovs_flush_rules)
