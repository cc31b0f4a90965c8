-- ===== src/Health/Aggregate.antt =====
-- What a run of the checks (internal/health/health.go) reports.
use mathlib.Core.List.{Permᴰ, append-nil, append_assoc}
use realtime_payments_ledger.Prelude.{
  ℕ, suc, ◌≡◌, refl, sym, subst, ap, ◌∙◌, Bool, true, false, not, ◌&&◌, ◌||◌, Option, none, some,
  List, [], ◌∷◌, ◌++◌, map, arith, All, All-append, All-map, All-both, length, if◌then◌else◌,
}
use realtime_payments_ledger.Prelude.Text.{GoString, str_eq, str_eq_refl}
use realtime_payments_ledger.Health.Registry.{Check, Ending}
use realtime_payments_ledger.Health.Names.{IsOther, IsDistinct}
use realtime_payments_ledger.Health.Orders.{perm-All, perm_symm, perm-IsDistinct, perm-length}
use realtime_payments_ledger.Health.Run.{
  Status, Result, Report, is_healthy, report_healthy, safe_run, with_error, put_result, result_of,
  run_all, count_result, aggregate, report_of, check_in,
}

-- A check passes where it returns nil.
abbrev pub succeeds : Ending → Bool
succeeds (Ending.returned none) = true
succeeds (Ending.returned (some e)) = false
succeeds (Ending.panicked v) = false

unfoldable pub lookup_result : GoString → List (GoString × Result) → Option Result
lookup_result name [] = none
lookup_result name ((n, res) ∷ rest) =
    let found = lookup_result name rest in if str_eq n name then some res else found

module _ {W : Type 0} (w : W) where
  abbrev pub passes : Check W → Bool
  passes c = succeeds (c.fn w).0

  -- Every required check passes; every optional one does.
  unfoldable pub required_pass : List (Check W) → Bool
  required_pass [] = true
  required_pass (c ∷ rest) = (not c.required || passes c) && required_pass rest

  unfoldable pub optional_pass : List (Check W) → Bool
  optional_pass [] = true
  optional_pass (c ∷ rest) = (c.required || passes c) && optional_pass rest

  abbrev entry : Check W → GoString × Result
  entry c = (c.name, result_of c w)

  abbrev Free : List (GoString × Result) → Check W → Type 0
  Free results c = All (λ e. str_eq e.0 c.name ≡ false) results

  put_result-appended :
      (c : Check W) (results : List (GoString × Result))
      → Free results c
      → put_result c.name (result_of c w) results ≡ results ++ entry c ∷ []
  unfolding put_result
  put_result-appended c [] h = refl
  put_result-appended c ((n, r) ∷ rest) h = rw (h.0, put_result-appended c rest h.1)

  still_unused :
      (c : Check W) (order : List (Check W)) (results : List (GoString × Result))
      → All (IsOther c) order
      → All (Free results) order
      → All (Free (results ++ entry c ∷ [])) order
  still_unused c [] results o h = tt
  still_unused c (d ∷ rest) results o h = (
    All-append (λ (e : GoString × Result). str_eq e.0 d.name ≡ false) results (entry c ∷ []) h.0
        (o.0, tt),
    still_unused c rest results o.1 h.1,
  )

  run_all-appended :
      (order : List (Check W)) (results : List (GoString × Result))
      → IsDistinct order
      → All (Free results) order
      → run_all order w results ≡ results ++ map entry order
  unfolding run_all
  run_all-appended [] results d h = sym (append-nil results)
  run_all-appended (c ∷ order) results d h = rw (put_result-appended c results h.0) (
      run_all-appended order (results ++ entry c ∷ []) d.1 (still_unused c order results d.0 h.1)
      ∙ append_assoc results (entry c ∷ []) (map entry order))

  result_of-status : (c : Check W) → is_healthy (result_of c w).status ≡ passes c
  unfolding result_of safe_run
  result_of-status c = ending (c.fn w).0 (c.fn w).1
    where
      ending :
          (e : Ending) (n : ℕ)
          → is_healthy (with_error c.required n (safe_run e)).status ≡ succeeds e
      ending (Ending.returned none) n = refl
      ending (Ending.returned (some e)) n = refl
      ending (Ending.panicked v) n = refl

  result_of-required : (c : Check W) → (result_of c w).required ≡ c.required
  unfolding result_of
  result_of-required c = ending (safe_run (c.fn w).0)
    where
      ending : (e : Option GoString) → (with_error c.required (c.fn w).1 e).required ≡ c.required
      ending none = refl
      ending (some e) = refl

  -- What `count_result` does to a total, by whether the check passes and is required.
  abbrev counted : Bool → Bool → Status × Bool → Status × Bool
  counted true required total = total
  counted false true (st, dg) = (Status.unhealthy, dg)
  counted false false (st, dg) = (st, true)

  count_result-counted :
      (c : Check W) (st : Status) (dg : Bool)
      → count_result (result_of c w) (st, dg) ≡ counted (passes c) c.required (st, dg)
  count_result-counted c st dg =
      subst (λ b. count_result (result_of c w) (st, dg) ≡ counted b c.required (st, dg))
        (result_of-status c)
        (subst
          (λ r.
            count_result (result_of c w) (st, dg)
            ≡ counted (is_healthy (result_of c w).status) r (st, dg))
          (result_of-required c) (by_clauses (result_of c w)))
    where
      by_clauses :
          (res : Result)
          → count_result res (st, dg) ≡ counted (is_healthy res.status) res.required (st, dg)
      by_clauses res = ground arith

  abbrev IsTotal : Status → Bool → Bool → Bool → Status × Bool → Type 0
  IsTotal st dg required optional total =
      (is_healthy total.0 ≡ (is_healthy st && required)) × (total.1 ≡ (dg || not optional))

  counted_first :
      (l : List (GoString × Result)) (required optional : Bool)
      → ((st : Status) (dg : Bool) → IsTotal st dg required optional (aggregate l (st, dg)))
      → (p r : Bool) (st : Status) (dg : Bool)
      → IsTotal st dg
          ((not r || p) && required)
          ((r || p) && optional)
          (aggregate l (counted p r (st, dg)))
  counted_first l required optional ih true r st dg =
      let h = ih st dg in (ground (arith, h.0), ground (arith, h.1))
  counted_first l required optional ih false true st dg =
      let h = ih Status.unhealthy dg in (ground (arith, h.0), ground (arith, h.1))
  counted_first l required optional ih false false st dg =
      let h = ih st true in (ground (arith, h.0), ground (arith, h.1))

  aggregate_lem :
      (order : List (Check W)) (st : Status) (dg : Bool)
      → IsTotal st dg
          (required_pass order)
          (optional_pass order)
          (aggregate (map entry order) (st, dg))
  unfolding aggregate required_pass optional_pass
  aggregate_lem [] st dg = (ground arith, ground arith)
  aggregate_lem (c ∷ order) st dg =
      subst
        (λ total.
          IsTotal st dg ((not c.required || passes c) && required_pass order)
            ((c.required || passes c) && optional_pass order) (aggregate (map entry order) total))
        (sym (count_result-counted c st dg))
        (counted_first (map entry order) (required_pass order) (optional_pass order)
          (aggregate_lem order) (passes c) c.required st dg)

  perm_pass :
      {order checks : List (Check W)}
      → Permᴰ order checks
      → (required_pass order ≡ required_pass checks) × (optional_pass order ≡ optional_pass checks)
  unfolding required_pass optional_pass
  perm_pass Permᴰ.nil = (refl, refl)
  perm_pass (Permᴰ.cons e p) = let h = perm_pass p in (rw (e, h.0), rw (e, h.1))
  perm_pass (Permᴰ.swap e f) = (rw (e, f) (ground arith), rw (e, f) (ground arith))
  perm_pass (Permᴰ.trans p q) = let h = perm_pass p in let k = perm_pass q in (h.0 ∙ k.0, h.1 ∙ k.1)

  find_entry :
      (order : List (Check W))
      → IsDistinct order
      → All (λ c. lookup_result c.name (map entry order) ≡ some (result_of c w)) order
  unfolding lookup_result
  find_entry [] h = tt
  find_entry (c ∷ order) h = (
    rw (str_eq_refl c.name),
    All-map order (λ d both. rw both.1 both.0)
        (All-both (λ d. lookup_result d.name (map entry order) ≡ some (result_of d w)) (IsOther c)
          order (find_entry order h.1) h.0),
  )

  length-entries : (order : List (Check W)) → length (map entry order) ≡ length order
  length-entries [] = refl
  length-entries (c ∷ order) = ap suc (length-entries order)

  -- What a report says of the checks.
  pub record IsReportOf (checks : List (Check W)) (r : Report) : Type 0 where
    pub ready : report_healthy r ≡ required_pass checks
    pub degraded : r.degraded ≡ not (optional_pass checks)
    pub entries : All (λ c. lookup_result c.name r.checks ≡ some (result_of c w)) checks
    pub no_others : length r.checks ≡ length checks

  run_all-entries :
      (order : List (Check W)) → IsDistinct order → run_all order w [] ≡ map entry order
  run_all-entries order d = run_all-appended order [] d (all_free order)
    where
      all_free : (l : List (Check W)) → All (Free []) l
      all_free [] = tt
      all_free (c ∷ l) = (tt, all_free l)

  -- Whichever order the concurrent checks end in, and also where some of them panic: for checks of
  -- distinct names, the report is healthy exactly if every required check returns nil, it is degraded
  -- exactly if some optional check does not, and it holds the result of every check under its name and
  -- nothing else.
  pub check_in-IsReportOf :
      (checks order : List (Check W))
      → IsDistinct checks
      → Permᴰ order checks
      → IsReportOf checks (check_in order w)
  unfolding check_in
  check_in-IsReportOf checks order d p =
      let o = perm-IsDistinct p d in
      let total = aggregate_lem order Status.healthy false in
      let same = perm_pass p in
      subst (λ results. IsReportOf checks (report_of results)) (sym (run_all-entries order o))
        (record {
          ready = total.0 ∙ same.0;
          degraded = total.1 ∙ ap not same.1;
          entries = perm-All _ (perm_symm p) (find_entry order o);
          no_others = length-entries order ∙ perm-length p;
        })
