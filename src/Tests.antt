-- ===== src/Tests.antt =====
-- Each theorem at a concrete input.
mod Execution
mod Accept
mod Position
mod Range
mod Sessions
mod Lists
mod Earn
mod Deposit
mod Portfolio
mod Menu
mod Feeds
mod Wallet
mod Cards
mod Backend
mod Clock
mod Landing
