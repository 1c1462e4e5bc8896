-- ===== src/Api/Names.antt =====
-- core/mikrotik_api.py: when `execute` and `execute_long` return, and what they return.
use mikrotik_bot.Prelude.{ℕ, ◌≡◌, refl, ◌↔◌, String, List, Result, ok, err, ap}
use mikrotik_bot.Action.{Fault, Action, give, recover, try, proceed, ◌>>=◌, ◌>>◌}
use mikrotik_bot.Client.{Row}
use mikrotik_bot.Api.{
  Gateway, State, get_router_name, log_action_best_effort, execute_with_retry, log_answer,
  execute_within,
}

ok_of_ok : {A : Type 0} {a b : A} → ◌≡◌ {A = Result Fault A} (ok a) (ok b) → a ≡ b
ok_of_ok h = cc

module _ {S : Type 0} where
  -- an action whose faults are dropped lets the rest return
  dropped :
      {A B : Type 0} (a : A) (r : Result Fault B × S) (quiet : B)
      → (proceed (λ _. give a) (recover (λ e. give quiet) r)).0 ≡ ok a
  dropped a (ok b, s) quiet = refl
  dropped a (err e, s) quiet = refl

  named :
      {A B : Type 0} (f : B → Action S A) (a : A) (r : Result Fault B × S)
      → ((b : B) (s : S) → (f b s).0 ≡ ok a)
      → (b : A) → ((proceed f r).0 ≡ ok b) ↔ ((a ≡ b) × (name : B) × (r.0 ≡ ok name))
  named f a (ok name, s) h b = (
    (λ e. let found : a ≡ b = ok_of_ok (cc (e, h name s)) in (found, name, refl)),
    (λ e. cc (h name s, e.0)),
  )
  named f a (err x, s) h b = ((λ e. absurd (cc)), (λ e. absurd (cc (e.2))))

module _ {Api Info W : Type 0} (gateway : Gateway Api Info W) (k : String) where
  log_answer-ok :
      (command : String) (rows rows' : List Row) (s : State Api W)
      → ((log_answer gateway k command rows s).0 ≡ ok rows')
        ↔ ((rows ≡ rows') × (name : String) × ((get_router_name gateway k s).0 ≡ ok name))
  unfolding log_answer ◌>>=◌ ◌>>◌ log_action_best_effort try
  log_answer-ok command rows rows' s =
      named _ rows (get_router_name gateway k s) (λ name t. dropped rows _ tt) rows'

  -- An execution within a timeout returns exactly if the execution template returns, with the same
  -- rows, and the router's name can then be looked up; whether the action can be logged makes no
  -- difference.
  pub execute_returns :
      (timeout : ℕ) (command : String) (kwargs : Row) (rows : List Row) (s : State Api W)
      → let sent = execute_with_retry gateway k timeout command kwargs s in
        ((execute_within gateway k timeout command kwargs s).0 ≡ ok rows)
        ↔ ((sent.0 ≡ ok rows) × (name : String) × ((get_router_name gateway k sent.1).0 ≡ ok name))
  unfolding execute_within ◌>>=◌
  execute_returns timeout command kwargs rows s =
      returns_of command rows (execute_with_retry gateway k timeout command kwargs s)
    where
      returns_of :
          (command : String) (rows : List Row) (sent : Result Fault (List Row) × State Api W)
          → ((proceed (log_answer gateway k command) sent).0 ≡ ok rows) ↔ (
              (sent.0 ≡ ok rows)
              × (name : String) × ((get_router_name gateway k sent.1).0 ≡ ok name))
      returns_of command rows (ok answer, t) =
          let whole = log_answer-ok command answer rows t in
          (
            (λ h. let (same, name, found) = whole.0 h in (ap ok same, name, found)),
            (λ h. whole.1 (ok_of_ok h.0, h.1, h.2)),
          )
      returns_of command rows (err e, t) = ((λ h. absurd (cc)), (λ h. absurd (cc (h.0))))
