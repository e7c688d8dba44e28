-- ===== src/Lib.antt =====
-- Verification of the backend's exact arithmetic, portfolio calculations, authorization rules,
-- rate limiting and price alerts.
--
-- The program is a NestJS service. Its amounts, prices and costs are decimal strings, and every
-- calculation on them goes through src/core/decimal/decimal.util.ts. The portfolio feature keeps a
-- ledger of transactions per asset, and computes the position and the realized profit from it by
-- one of three strategies: average cost, FIFO and LIFO (src/features/portfolio/domain/calculation).
--
-- Decimal models src/core/decimal/decimal.util.ts, a definition for each function: parse_decimal is
-- parseDecimal, format_decimal formatDecimal, and so on. A string is a list of UTF-16 code units, a
-- bigint is a natural number beside its sign, and a `throw` is an `err` with the error's kind. Its
-- children hold the proofs: RoundTrip and Value (a text denotes an integer over a power of ten),
-- Arithmetic, Order, Quotient, Finite and Division (the operations on such numbers), Scales (numbers
-- of different scales), Canonical (the one form of zero), Laws (errors and edge cases) and Grammar (the
-- texts that are read).
--
-- Portfolio models src/features/portfolio/domain/calculation: Types the interfaces of `types` and of
-- lot.ts, Validation cost-basis-validation.ts, Holdings holdings.calculator.ts, AverageCost
-- average-cost.calculator.ts, LotStore lot.ts, LotCostBasis lot-cost-basis.calculator.ts. The
-- calculators call the guards of Validation and the operations of Decimal. The variables of a loop
-- are a record, a round is a function from it to the next one, and the mutable LotStore is a record
-- that its methods return. No caller holds an alias of a stored lot, since `push` and `toLots` copy.
-- LotStore.View gives the lots in the order in which disposals take them, from either end;
-- LotStore.Blocks says on numbers what a disposal takes; LotCostBasis.Replay and
-- LotCostBasis.Ledger replay a ledger on these numbers.
--
-- Portfolio.Engine models portfolio-calculation.engine.ts, which orders a ledger, hands it to a
-- strategy and derives the average cost; its children hold the chronological order (Chronology) and
-- the results (Results). Date.parse is a parameter, date_parse, and Array.prototype.sort is a stable
-- insertion sort by the comparator of the source.
--
-- RateLimit models src/features/security/rate-limit: Redis is the interface of the commands that the
-- scripts call, with their documented behaviour as laws and a store that obeys them; Store is
-- rate-limit-store.service.ts with the bodies of its three scripts, rate-limit-key.builder.ts and
-- hashing/security-hasher.service.ts; Resolvers is resolvers and utils/read-body-string.util.ts;
-- Service is rate-limit.service.ts, rate-limit-evaluator.service.ts and rate-limit.guard.ts. The
-- client's requests are interleaved in any order: a script runs as a unit at one instant, so a run of
-- the limiter is a list of script calls with their times. A call of Redis may be refused or lose its
-- reply. Store.Windows is the abstract fixed window with its block, without Redis, Store.Scripts
-- relates the script to it, and Store.Budget counts hits in the course of time. The keyed hash of
-- node's crypto library, `trim`, `toLowerCase` and the key generator of a rule are parameters.
--
-- Authorization models src/features/authorization/domain (role-hierarchy.ts, permission.catalog.ts,
-- owner-protection.policy.ts, role-protection.policy.ts, admin-invitation.policy.ts) and
-- permission-evaluation.service.ts and admin-account.service.ts in application/services of the same
-- feature. The repository of the users is a function of an identifier, and an assertion returns a
-- verdict. Authorization.Tables models infrastructure/repositories of the feature (the tables of
-- grants, roles, permissions of roles and assignments, with the keys and cascades of the entities),
-- and Authorization.UseCases the classes of application/use-cases that change them: a use case reads
-- the tables and either throws or returns the new ones. UseCases.Runs inverts such runs,
-- UseCases.Escalation relates requests one after another to what accounts hold, and
-- UseCases.SystemRoles to the system roles. Authorization.Invitations models the invitations: the
-- use cases that invite, accept and revoke, on the tables of users, grants and invitations, with
-- Settled and SingleUse on what settles an invitation. Each request runs as a unit, and random tokens,
-- digests and made identifiers are arguments.
--
-- PriceAlerts models price-alert-evaluator.service.ts and the processing of one alert in
-- price-check.service.ts, in src/features/coin-tracker/application/services, with the writes of
-- price-alert.repository.ts. The alert that was read and the row that is stored are two arguments,
-- since a user may change the row between. Crossing is about prices as numbers, Triggers takes
-- one check apart, Firing is about the result of one check, Spacing about checks one after another.
--
-- Common holds the shared types: native numbers, integers, texts, lists and the Result type.
--
-- Values have their declared TypeScript types, so the checks of a transaction that is no object are
-- left out; the transaction type, which is checked when the program runs, has a case for any other
-- value. Loops that are not over a list run on fuel: gcd_loop with its second number, which falls in
-- each round; divide_out with the number that it divides, which also falls; consume_loop with the
-- number of lots, since each round but the last removes one. The theorems about the operations say
-- that results are returned, so the fuel is enough.
--
-- Not modelled: the status and the deletion of administrators, the use cases of the other features,
-- the policies and log lines of the rate limiter, the edits of price alerts, and sessions; and the
-- code around third-party packages (HTTP, TypeORM, Redis, mail).
pub mod Common
pub mod Decimal
pub mod Portfolio
pub mod Authorization
pub mod RateLimit
pub mod PriceAlerts
