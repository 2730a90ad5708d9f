-- ===== src/Budget.antt =====
-- internal/budget/budget.go: spending limits per API key and per tenant. Amounts are the floats of
-- a parameter `f`; `glob` is filepath.Match; the ledger's totals and the starts of the day and the
-- month are parameters, and so are the instants at which a call reads the clock. The model runs
-- one check at a time.
pub mod Rules
pub mod Spend
pub mod Manager
mod Examples
