-- ===== src/Lib.antt =====
-- Verification of the frontend of b1nary: the part that trades options.
--
-- The user opens a trade dialog on a quote. Its handler checks the amount, computes the collateral,
-- reads the chain, and fires a batch of transactions: an approval, if it is needed, and the order. The
-- wallet sends them one after the other while the chain is polled for the fall of a balance. What has
-- been accepted is shown at once as an optimistic position, until the backend has indexed it.
--
-- Which file models what (paths are from the repository's root):
-- - Api: the types of quotes and positions of frontend/src/lib/api.ts.
-- - PositionMath: frontend/src/lib/positionMath.ts, every function. A field that JSON may fill with
--   anything is an `Unknown`.
-- - Assets: frontend/src/lib/assets.ts, the registry and its lookups.
-- - Execution: frontend/src/lib/execution.ts. Execution/Poll is `pollUntil`, Execution/Race is
--   `fireAndPoll`, Execution/Order has the other functions. Execution/Wallet is `sendBatchTx`,
--   `sendFundingTx` and what frontend/src/hooks/useWallet.ts derives from the connected wallets;
--   Execution/Disconnect is its `disconnect`. Execution/Chain is what a dialog reads from the chain, and
--   the step of firing a batch, which the dialogs share.
-- - Flow: handlers, as functions of the dialog's state that may return early, throw or wait forever.
-- - Accept: `handleAccept` of frontend/src/components/AcceptModal.tsx and what it computes from its
--   props. Its state is the record Dialog, which also holds all calls sent and positions stored.
--   Accept/Outcomes and Accept/Reports describe the ends of the `try` block and of the handler, and
--   Accept/Session is what the user can click while handlers run, as a step relation.
-- - Range: `handleAccept` of frontend/src/components/v2/RangeAcceptModal.tsx, which sells a put and a
--   call at once: Range/Handler has the swap and the wrapping before the legs, Range/Legs the legs and
--   the whole handler, Range/Tagging the retries of `tagGroup`, Range/Session the clicks and where the
--   handlers can be, and Range/Bounds what follows for the number of legs bought. Range/Funds says what
--   the account has for the legs, Range/Breaks and Range/Reasons why the legs may not be reached.
-- - Earn: the strikes, the selections, the premiums and the button (Earn/Button) of
--   frontend/src/components/v2/RangeEarn.tsx.
-- - Optimistic: frontend/src/lib/optimisticPositions.ts and
--   frontend/src/hooks/useOptimisticPositions.ts.
-- - Positions: `refresh` of frontend/src/hooks/usePositions.ts.
-- - Balances: `refetch` of frontend/src/hooks/useBalances.ts.
-- - Deposit: frontend/src/components/DepositModal.tsx. Deposit/Form has the form and `parseAmount`,
--   Deposit/Handlers both handlers, Deposit/Reasons how they can end and why, Deposit/Session what the
--   user can click while a handler runs,
--   Deposit/Okb is the form together with Balances, and Deposit/Self the
--   dialog together with the wallet.
-- - Portfolio: the page of a user's positions. Portfolio/Grouping is `groupPositions` of
--   frontend/src/app/positions/page.tsx; Pairing, Turn, Loop and Shown have the
--   lemmas on its loops. Portfolio/Log is frontend/src/components/TradeLog.tsx and
--   Portfolio/Chart the points of frontend/src/components/EarningsChart.tsx.
-- - Cards: what the page of positions shows. Cards/One is frontend/src/components/PositionCard.tsx,
--   Cards/Two frontend/src/components/RangePositionCard.tsx, Cards/Summary
--   frontend/src/components/PortfolioSummary.tsx, Cards/Row a row of the table, and Cards/Page the page's
--   own choices. Cards/Sections, Cards/Agreement and Cards/Gain relate them.
-- - Clock: frontend/src/components/ExpiryCountdown.tsx, the countdown of
--   frontend/src/components/EarningsChallenge.tsx, and `getNextMonday` of frontend/src/lib/utils.ts.
-- - Calendar: the dates of `buildCalendarUrl` of frontend/src/lib/utils.ts.
-- - Backend: `fetchAPI` of frontend/src/lib/api.ts.
-- - Menu: the prices, the selection and the amount of frontend/src/components/v2/PriceMenuV2.tsx, which
--   opens the trade dialog and holds the page of ranges; Menu/Shop has its button, the dialog and the
--   screen behind it, and Menu/Button says when the button opens the dialog.
-- - Feeds: hooks as functions of the answers in the order in which they come:
--   frontend/src/hooks/usePrices.ts, frontend/src/hooks/useNotificationStatus.ts, in Feeds/Polling
--   useCapacity.ts, useSpot.ts and useActivity.ts, in Feeds/History usePriceHistory.ts, in
--   Feeds/Faucet useFaucet.ts, and in Feeds/Yield useYield.ts and useLeaderboard.ts.
-- - Yields: the summary and the history in frontend/src/components/yield.
-- - Banner: frontend/src/components/NotificationBanner.tsx as a function of its events.
-- - Landing: the page that lets a visitor try the product. Landing/Slider is
--   frontend/src/components/landing/PriceSlider.tsx with the price of TickingPrice.tsx, Landing/Analytics
--   frontend/src/hooks/useSliderAnalytics.ts, Landing/Signup the form of SimulationResult.tsx, and
--   Landing/Story the numbers and the loop of LandingPage.tsx; Landing/Clamp, Landing/Nearest and
--   Landing/Strikes are about the slider.
-- - Js: what the program uses of JavaScript. Js/Number is the interface of its numbers, with the laws
--   of IEEE 754 that the theorems need; Js/Fixed is an instance of it, in fixed point; Js/Error has
--   exceptions; Js/Text has the search in texts;
--   Js/Sort is `sort`, which is stable.
-- - Prelude: shared names and lemmas. Tests: each theorem at a concrete input.
--
-- Parameters: numbers (`JsNumber`), `toLowerCase` (`lower`), viem (`Viem`), JSON and the room of
-- the session storage (`Storage`), the backend's answer to `getPositions`, the wallet
-- (`FundingWallet`), and the answers of the chain (`Chain`), which depend on what has been sent before.
-- The moment at which the wallet's promise settles is counted in attempts of the poll; it may be never,
-- since a prompt may stay unanswered, and then `sent` holds what the wallet had been handed. The reads of
-- the chain and `waitForTransactionReceipt` have time-outs of their own: they answer or throw. The answers
-- of the wallets to `disconnect`, of the faucet and of `fetch`, and the local calendar are parameters too.
--
-- Bounds: the poll's loop is structural recursion on the attempts left, 60 as in the code, and so
-- is that of the retries of `tagGroup`, 5 as in the code. The sessions of the dialogs count clicks and
-- handlers without a bound. The loop of `generateStrikes` and the digits of a number run on fuel;
-- Landing/Strikes and Calendar say how much is enough. Nothing else has a bound.
--
-- Not modelled: frontend/src/hooks/useAaveRates.ts, which is a constant, the formats of numbers, the
-- texts and the animations, the markup, the timers of the hooks, the console, the callbacks of the
-- dialog's parent (that `onAccepted` is called is a field of the state), and what a transaction costs that
-- is sent but reverts. The clock's texts are parameters. The contracts, the backend and the market
-- maker are not modelled: their answers are arbitrary.
pub mod Prelude
pub mod Js
pub mod Api
pub mod PositionMath
pub mod Assets
pub mod Execution
pub mod Flow
pub mod Accept
pub mod Optimistic
pub mod Positions
pub mod Range
pub mod Cards
pub mod Earn
pub mod Balances
pub mod Deposit
pub mod Clock
pub mod Backend
pub mod Feeds
pub mod Banner
pub mod Menu
pub mod Portfolio
mod Tests
pub mod Landing
pub mod Yields
pub mod Calendar
