-- ===== src/Lib.antt =====
-- Tossinvest: a client of the Toss securities Open API in four crates. crates/tossinvest-model has
-- the wire types; crates/tossinvest-rate shapes the calls of each rate-limit group and adapts its
-- rate to what the server answers; crates/tossinvest sends the requests, with retries, and feeds the
-- outcome to the rate control; crates/tossinvest-state projects what it observes of an account's
-- orders into a snapshot, and drives sweeps, optimistic submissions and refreshes.
--
-- Common: names of the libraries, Boolean tests, association lists (Common/HashMap) for `HashMap`,
--   tables of known texts (Common/Table), results, `str::parse` for unsigned integers (Common/Text),
--   and `i64` (Common/I64).
-- Model: crates/tossinvest-model/src. Scalar takes `Decimal` and the times as the record `Scalars`.
--   Status is order/status.rs, Orders order/response.rs, Requests order/request.rs, Newtype the
--   validated texts of newtype.rs, OpenEnum the macro of enum_macro.rs, and Account, ErrorCode (with
--   envelope.rs), Enums, Stock, MarketInfo and MarketData the files of these names. Figures has the
--   records of account.rs that are numbers by currency. Wires and Quantity hold proofs.
-- Rate: crates/tossinvest-rate/src. Groups is the table of lib.rs; Controller is `apply_feedback` of
--   dynamic.rs, Limiter its `DynamicLimiter` and Registry the `RateLimiterRegistry` of lib.rs. The
--   record `RateEnv` (Rate/Env) takes the `f64` arithmetic and the `governor` limiter, with the laws
--   that the proofs use. `DynamicLimiter::record` is named `record_feedback` here.
-- State: crates/tossinvest-state/src. Event, View, Rows and Projection are core/event.rs, core/view.rs
--   and core/state.rs: an operation takes a state and returns the new one with the deltas, and `none`
--   is a panic. Ops has the operations as one type with their runs. Store is the `Store` of
--   runtime.rs, and Store/Races its `apply` when several threads call it: a step relation whose
--   threads lock, fold, unlock and publish. Pump is `handle_command`, with Pump/Sweep, Pump/Cadence
--   and Pump/Leases for the functions of these names. System composes them: the handles, the leases,
--   the queue, the turns of `pump` and the detached tasks, with System/Steps as the step relation
--   that interleaves them. The other files of State hold the proofs: Invariant, Closing, Latch,
--   Generation, Fills (which observations do not panic), Submission, Store/Laws, Store/Stale, those of
--   Pump and those of System.
-- Client: crates/tossinvest/src. Error is error.rs, Transport the request builders of transport.rs,
--   Retry `send_with_retry` of client.rs with config.rs's policy, Call its `call` and `decode`. Auth
--   is auth.rs, and Auth/Flight the tasks that share its lock, as a step relation. Endpoints has the
--   account's requests of api.rs, Endpoints/Market the others, and Endpoints/Safe all of them as one
--   type. Builder is `TossClientBuilder` with `ClientConfig`, and Reqwest the `ReqwestTransport` of
--   transport.rs. The records `Http` and `Sockets` take what the client calls of `reqwest` and `url`.
-- Tests: the theorems at concrete inputs, with the parameters given by functions.
--
-- Counters of a row and of the state are `u64` and wrap (`next_u64`); an `i64` is 64 bits in two's
-- complement and wraps. Durations and instants are nanoseconds, those of Auth seconds. The retry
-- loop runs on fuel: the number of attempts that the policy allows. `RateEnv` has no NaN: the rates
-- are finite. Where an operator of another package panics out of its range, the model has the range as
-- a parameter and the panic as `none`: `sub_fits` for the difference of decimals, `instant_max` for the
-- sum of an instant and a delay.
--
-- A call of `Store::apply` with its publication is one step of System, since Store/Races has what
-- happens inside it. The methods of a limiter are one step each, and the registry's map holds the
-- limiters themselves in place of their `Arc`s.
--
-- Not modelled: what `reqwest` does with a request, `Debug` and `Display` texts, the code that serde
-- derives, the capacity of the broadcast channel (the deltas sent are a log), `snapshot` and
-- `subscribe` of the handle, the `oneshot` reply of a refresh with the generation that it gives to the
-- caller, and calls that come between the update of a limiter's state and the rebuild of its bucket.
pub mod Common
pub mod Model
pub mod Rate
pub mod State
pub mod Client
mod Tests
