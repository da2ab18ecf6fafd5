-- ===== src/Lib.antt =====
-- EXBanka 4 Backend: the services of a bank, in Go, that talk over gRPC and keep their state in
-- Postgres databases. A handler reads and writes rows by SQL statements, mostly without a
-- transaction around them, and answers with a value or with a gRPC status.
--
-- Shared models what the handlers have in common. Shared/Database is a handler: a function from the
-- state of its databases and a list of outages, which says for every statement, in the order in
-- which they are sent, whether it fails. A failed statement changes nothing, and the statements
-- before it stay applied: that is how the handlers leave half of their work behind. Shared/Ensures,
-- on top of Shared/Replies, has the postconditions of handlers in every run, one rule for each way
-- to build one. Shared/Table has the SQL on one table, a list of rows: the first row that fits, the
-- update of all rows that fit, their number. Shared/Account has the rows of account_db and
-- exchange_db that the services share. Shared/Text has strconv.ParseInt, and Shared/Int the
-- integers.
--
-- Amounts are float64 in Go. They are modelled as exact decimals, integers that count millionths:
-- sums and comparisons are exact, so a rounding error of float64 in a sum is not seen. A column
-- NUMERIC(20, 2) holds cents, and rounds what is stored in it, a half away from 0 (Shared/Cents).
-- That is modelled for the rows of accounts, interbank transactions, payments and exchanges; the
-- columns of orders, loans, contracts, portfolios and tax records keep the value they are given.
-- An amount that is not half a cent, up to whole cents, moves the columns that hold it up and down
-- alike; the properties that need it say so. Texts are compared as texts; a text whose characters
-- matter (a card number, an owner's id) is the list of its bytes. Times are seconds.
--
-- Payment/Interbank models services/payment-service/handlers/interbank.go, the receiving side of
-- the interbank two-phase commit: State has the rows and messages, Prepare has
-- PrepareInterbankPayment and insertInterbankTx, Commit has CommitInterbankPayment and
-- RollbackInterbankPayment. Postings, Votes, Acceptance and Settlement have the properties of the
-- postings' check, of the stored votes, of a YES vote, and of the second phase; Faults is about
-- failed credits and refused transactions. Two calls do not overlap in this model.
--
-- Payment/Quote and Payment/Create model CreatePayment of
-- services/payment-service/handlers/grpc_server.go, which moves money in one transaction
-- (Shared/Database) and stores the payment after it; Allowed and Direct have its properties. The
-- protocol with a partner bank, to which CreatePayment passes some payments, is a parameter.
--
-- Exchange models ConvertAmount of services/exchange-service/handlers/grpc_server.go: Rates has
-- ensureTodayRates and fetchAndStoreRates, Convert the exchange, and Converted its property. What
-- the external rate service and the cache in Redis answer are arguments. Rates are rounded to
-- millionths by the code, which is the unit of the model.
--
-- Card models services/card-service: Luhn and Brand have utils/luhn.go, utils/card_type.go and
-- utils/card_number.go; State has the rows and messages; Lifecycle and Creation have the handlers
-- of handlers/grpc_server.go that write, with utils/limits.go and handlers/limits.go. Number,
-- Deactivated, Drawn and Terminal have the properties. What is random, the clock, bcrypt and
-- time.Parse are arguments. The loop that draws a new card number draws from a list; when the list
-- is used up, the call is unanswered, which is no answer of the service; a list with one new number
-- is enough (Drawn).
--
-- Order models services/order-service: State has the rows; Pricing has execution/executor.go and
-- the pure part of approval/approval.go; Approval has approval/service.go, the cancelling of an
-- order and the statements of repository/order_repo.go that they send; Settlement has
-- settleAccountAndCommission and Execution the loop of executeOrder, both of
-- execution/scheduler.go. A round of the loop takes a tick, what the price service answers and the
-- random number drawn; the list of ticks is the fuel, and when it is used up the loop is still
-- running. Products and quotients of float64 are a parameter (Shared/Float). Limits, Decisions,
-- Funds, Within and Fills have the properties. One order is executed at a time in this model.
--
-- Loan models services/loan-service: State has the rows; Rates has handlers/rates.go; Application
-- has the handlers of handlers/grpc_server.go that write; Collection has handlers/cron.go, the
-- daily collection of installments and the monthly change of variable rates. Charged, Approved,
-- Lifecycle and Tiers have the properties. The clock, the calendar and the random numbers are
-- arguments; the rounding by the columns of the loans' own tables is not modelled.
--
-- Otc models the exercise of an option contract. State, Money, Statements, Compensation and Exercise
-- have ExerciseContract of services/otc-service/handlers/grpc_server.go, a saga of five steps with a
-- compensation each, and the log it writes; Recovery has recoverSaga of handlers/saga_recovery.go.
-- Parties says which deal, accounts and amounts the lookups find. Stages is the interface that the
-- proofs use of a table the saga changes: Undo, Reads, Runs and Whole are proved over it, and it is
-- filled twice, by Balances (with Columns) for the accounts and by Portfolios (with Shares and
-- Holdings) for the shares. Restored, Reverted, Recovered and Refused are about
-- failed runs, the recovery and refused calls. retryExec sends a statement up to three times, so
-- the properties of compensations take outages without three failures in a row (Shared/Sparse);
-- Shared/Branches and Shared/Dropped have the rules for statements whose errors are retried or
-- ignored, and Shared/Rows compares tables row by row. The test hooks that inject faults are off,
-- and the exercise of a contract of a partner bank is a parameter.
--
-- Not modelled: negotiations and offers of options, transfers, funds, taxes, recurring
-- orders, authentication, the gateway and its HTTP handlers, notifications and queues, read-only
-- handlers, generated code.
pub mod Shared
pub mod Payment
pub mod Card
pub mod Exchange
pub mod Order
pub mod Otc
pub mod Loan
