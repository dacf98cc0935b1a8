-- ===== src/Lib.antt =====
-- Nestlio is a household ledger for two: a React frontend in TypeScript (frontend/src) before a
-- Python server. This library is about the frontend's own rules. React state is a record, a
-- handler is a function from the state to the next, a memo is a function of its inputs, and what a
-- handler does to the outside is a list of effects.
--
-- Prelude (Tests, Lists, Int, Texts, Numbers, Decimals, Sort, Groups): tests on native numbers,
--   integers over them, texts as lists of UTF-16 code units, decimal numbers (`Number(text)`),
--   their printing, the stable sort and the `Map` of lists that the memos build.
-- ApiClient: frontend/src/api/client.ts. State holds isRefreshing, failedQueue and cachedToken;
--   process_queue, on_error, on_refreshed and attach_token are processQueue and the interceptors.
-- AmountInput: frontend/src/components/common/AmountInput.tsx: sanitizeAmountInput,
--   formatAmountInput, toggleAmountSign and the loop that puts the caret back.
-- Months: frontend/src/utils/date.ts and frontend/src/utils/monthRange.ts: shiftYearMonth,
--   buildYearMonthRange, syncTargetsToPeriod, distributeAmountEvenly.
-- MonthlyGrid: frontend/src/hooks/useMonthlyTargetGrid.ts, over Months.
-- Ledger: frontend/src/hooks/useLedgerFilters.ts and frontend/src/hooks/useLedgerMonth.ts.
-- Types: the responses of frontend/src/types/index.ts that the parts read.
-- QueryKeys: frontend/src/constants/queryKeys.ts: the keys of the query cache and the groups of keys
--   that a change invalidates; how the cache matches keys is a parameter.
-- Auth: frontend/src/stores/authStore.ts: the store, the cache entry beside it, and load, login,
--   logout and checkAuth over both.
-- Modals: frontend/src/hooks/useModalBehavior.ts: the scroll lock and the stack that all open modals
--   share, the Tab trap and the drag.
-- GoalDraft: frontend/src/components/financialPlan/goalDraft.ts, over MonthlyGrid's amounts.
-- Goals: frontend/src/utils/goalStatus.ts and frontend/src/utils/goalSort.ts.
-- Policies: frontend/src/components/review/insurancePolicyDraft.ts, with the riders' part of
--   frontend/src/components/review/RiderListEditor.tsx and frontend/src/constants/insurance.ts.
-- CategoryGroups: frontend/src/utils/categoryGroup.ts.
-- Swipes: frontend/src/hooks/useSwipeMonth.ts, under the modals' scroll lock.
-- Household: frontend/src/utils/todos.ts and frontend/src/utils/cheers.ts.
-- TransactionForm: frontend/src/components/transactions/TransactionForm.tsx, with what its quick entries
--   offer (frontend/src/components/transactions/TransactionQuickPicks.tsx).
-- Errors: frontend/src/utils/error.ts.
-- Toasts: frontend/src/utils/toast.ts and frontend/src/components/Toaster.tsx.
-- Mutations: frontend/src/utils/queryClient.ts, frontend/src/hooks/useCrudMutations.ts and the hooks
--   over it; Mutations/Assets is frontend/src/hooks/useAssetSection.ts.
-- Calendar: the day helpers of frontend/src/utils/date.ts, and
--   frontend/src/components/transactions/MonthCalendarGrid.tsx.
-- Acceleration: frontend/src/utils/goalAcceleration.ts.
-- Schedules: frontend/src/components/transactions/RecurringForm.tsx and
--   frontend/src/components/transactions/EventForm.tsx.
-- PlanForms: frontend/src/components/financialPlan/AnnualPlanItemForm.tsx and
--   frontend/src/components/financialPlan/CashflowPlanItemForm.tsx.
-- NetWorth: frontend/src/utils/netWorth.ts and frontend/src/utils/contribution.ts.
-- GoalForm: frontend/src/components/financialPlan/GoalFormModal.tsx, with the milestones and card parts
--   of frontend/src/components/financialPlan/GoalsTab.tsx and frontend/src/constants/growlio.ts.
-- LedgerPage: frontend/src/pages/TransactionsPage.tsx, over the form of a transaction and Mutations.
-- EventActions: frontend/src/hooks/useEventActions.tsx, over Mutations and Schedules.
-- QuickPicks: frontend/src/components/transactions/TransactionQuickPicks.tsx.
-- Formats: frontend/src/utils/format.ts, the labels of frontend/src/utils/date.ts and of the quick chips.
-- TodoActions: frontend/src/hooks/useTodoActions.tsx, over Mutations.
-- Tests: the theorems at concrete inputs.
--
-- The parts meet in their values: the grid takes its months from Months and its amounts from the
-- amount field, the ledger reads the records of Types, every request goes through ApiClient.
--
-- A JavaScript number is an exact decimal or NaN: rounding of binary floating point is not modelled,
-- so sums, differences and products are exact here. `Date` carries months and reads the years 0 to
-- 99 as 1900 to 1999, as the language says; theorems that move months start in the year 100. A month's part that
-- is not a text of digits counts as NaN. `localeCompare` on ISO dates orders as code units do. Loops
-- are structural recursion or count their rounds, and no theorem depends on a bound of them.
--
-- Parameters stand for what is not the repository's: which dialog contains which in the DOM, how the
-- query cache matches keys, the number format of the browser and the time that a date's text denotes.
-- The quotient of two amounts, which frontend/src/utils/goalAcceleration.ts divides as floating-point
-- numbers and rounds up, is a parameter too: theorems take of it that it is exact for whole amounts
-- below 2^53. What a request answers is an outcome that a step brings, at any time after the request.
--
-- Not modelled: rendering, styling, routing and browser glue, the endpoint wrappers, the query
-- cache itself, the generated API schema and the Python server, which are not rules of the frontend;
-- the state of most pages and of the panels that only show data (frontend/src/pages, and most of
-- frontend/src/components), which stand over the modelled parts.
pub mod Acceleration
pub mod AmountInput
pub mod ApiClient
pub mod Auth
pub mod Calendar
pub mod CategoryGroups
pub mod Errors
pub mod EventActions
pub mod Formats
pub mod GoalDraft
pub mod GoalForm
pub mod Goals
pub mod Household
pub mod Ledger
pub mod LedgerPage
pub mod Modals
pub mod MonthlyGrid
pub mod Months
pub mod Mutations
pub mod NetWorth
pub mod PlanForms
pub mod Policies
pub mod Prelude
pub mod QueryKeys
pub mod QuickPicks
pub mod Schedules
pub mod Swipes
pub mod Tests
pub mod Toasts
pub mod TodoActions
pub mod TransactionForm
pub mod Types
