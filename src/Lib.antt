-- ===== src/Lib.antt =====
-- Stock_Bot: the path of an order from a trade candidate to the broker, the portfolio and the paper
-- account beside it, and the learning cycle that promotes models.
--
-- The program scores trade candidates (trading/signals, trading/strategy). The risk engine
-- (trading/risk) turns a candidate and the state of the account into an assessment, which is a
-- rejection or an approved quantity. The execution boundary (execution/control.py,
-- execution/trading_execution.py, execution/safety.py) turns an approved decision into an
-- authorization, unless the independent safety gate vetoes it, and the execution engine
-- (execution/engine.py) turns an authorization into an order, submits it to a broker adapter, and
-- keeps the orders, their lifecycle states and a journal of the transitions. The paper account
-- (paper/runtime.py) fills the same authorizations without a broker, and the exit engine closes the
-- positions. The portfolio manager (portfolio/) judges a trade before the risk engine does. The
-- learning cycle (learning/, self_learning/) promotes a candidate model to champion.
--
-- The files and the code that they model:
--   Base/       shared helpers: texts, dictionaries, exceptions as values (Result), early returns
--               (Flow), methods that change a state and may raise (Exec), lists and integers
--   Float/      the operations on floats, the assumed laws of their comparisons, and an instance of
--               them (Fixed)
--   Clock       timestamps
--   Signals     TradeCandidate (trading/signals/models.py), StrategyDirection
--               (trading/strategy/models.py)
--   Risk/Contracts, Risk/Limits, Risk/Sizing, Risk/Decision
--               trading/risk/contracts.py; daily_limits.py, concentration.py, correlation.py and
--               kill_switch.py; position_sizing.py, stop_loss.py, target.py, volatility.py and
--               exposure.py; gate.py
--   Risk/Transitions
--               a theorem on RiskTransitionSizing.from_context
--   Risk/Input  RiskConfig, RiskInput and RiskAssessment of trading/risk/engine.py
--   Risk/Engine RiskEngine.evaluate in the order of its text: Gates, Quantities, Exposure and Body
--               hold the definitions; Refusals and Approvals say what the two outcomes mean;
--               Cuts, Authority, Bounds, Intent and Opening hold the theorems; Examples the tests
--   Execution/Status, Execution/Models, Execution/Control, Execution/KillSwitch
--               OrderStateMachine and the immutable records of execution/engine.py; execution/safety.py,
--               trading_execution.py and control.py; execution/kill_switch.py
--   Execution/Environment
--               what the engine calls: the broker adapter, the clocks, the audit store, the digest
--   Execution/Engine
--               ExecutionEngine: State (the fields and _transition), Requests (from_authorization,
--               from_exit_authorization, validate), Submission (submit), Recovery (refresh,
--               recover_unknown, rehydrate, reconcile_order, cancel), Queries (the views), Positions
--               (reconcile_positions), Operations (histories of calls); Keeps, Journal, Once, Sends, Submissions,
--               Authorized, Books and Answers hold the proofs
--   Execution/Paper
--               PaperBrokerAdapter of execution/adapters/paper.py: Fills (prices, fills and net
--               positions), Broker (submit, cancel, fill_remaining); Positions and Contract hold
--               the theorems
--
--   Execution/Routing, Execution/Reconciliation
--               SmartOrderRouter of execution/routing.py and BrokerReconciler of
--               execution/reconciliation.py; Best and Agreement hold the theorems
--   Portfolio/  portfolio/: Contracts (contracts.py), Transition (transition.py), Exposure
--               (exposure.py), Manager (manager.py); Within and Handover hold the theorems
--   Paper/Runtime
--               paper/runtime.py: Orders (the records), Fills (quantities and positions), Submit
--               (submit), Account (account_snapshot, mark_to_market); Authority holds the theorem
--   Paper/Lifecycle
--               PaperTradeLifecycle of trading/paper/lifecycle.py; Quantities and Closes hold the proofs
--   Paper/Outcome, Paper/Exits
--               TradeOutcome of trading/paper/lifecycle.py; trading/paper/exit_engine.py: Engine (the
--               state and the decision to close), Trades (open_position, process_candle, close_all);
--               Opened, Accounts, Closings and Runs hold the proofs
--   Automation/ automation/: Contracts (contracts.py and state_store.py), Surroundings (what the
--               orchestrator is given), Orchestrator (AutomationOrchestrator of orchestrator.py: _emit
--               and run); Modes, Stored, Rounds and Recorded hold the proofs
--   Learning/Stages, Learning/Champion
--               LearningLifecycle and ChampionStore of learning/lifecycle.py; Champion has History,
--               Lineage and Approved for the proofs, Checks and Activation for activate
--   Learning/Promotion, Learning/Candidate, Learning/Store
--               PromotionDecision and ModelCandidate of self_learning/contracts.py,
--               self_learning/candidate_lifecycle.py, and the ledger of self_learning/store.py
--
-- How the code is read:
--   * A float is a value of any type with the operations of `Float`; a theorem that needs laws of
--     their comparisons takes `IsOrdered`, which says what IEEE 754 says of finite numbers. No law
--     of addition or multiplication is assumed.
--   * A timestamp is a value that has a time zone or not. The broker adapter, the clocks, the audit
--     store and the SHA-256 digest are parameters; each call of them may change their state and may
--     raise.
--   * An exception is a value of `Error`; what a method wrote before it raised stays written. The
--     messages are those of the source without the values that it interpolates.
--   * A record stands for an object whether or not it passed the checks of its constructor, which
--     are functions of their own (check_input, check_request and so on); the code that builds an
--     object calls them, and the theorems about a given object do not assume them.
--   * The `isinstance` checks of the source hold by typing. `upper` and `lower` are those of ASCII,
--     and `strip` removes ASCII white space.
--   * The loops run over lists and recurse on them, so that no bound or fuel is needed.
--   * A dictionary is an association list in insertion order.
--   * A text file that is written by appending lines is the list of its lines, and JSON is a pair of
--     functions; a theorem that reads a line back assumes that of the line (IsReadable).
--
-- Not modelled: the fingerprints (digests of JSON texts), the market data, the training and the
-- research code, the user interface and deployment parts, and the Upstox adapters, which call the
-- network; of the learning ledger, the reading of damaged files.
pub mod Base
pub mod Float
pub mod Clock
pub mod Signals
pub mod Risk
pub mod Execution
pub mod Portfolio
pub mod Paper
pub mod Automation
pub mod Learning
