-- ===== src/CoinFlip.antt =====
-- apps/coinflip/src: the coin flip's server, from the commitment of a bet to its submission.
pub mod State
pub mod Deploy
pub mod Balances
pub mod Deposit
pub mod Reveal
pub mod Lifecycle
pub mod Submission
pub mod Settlement
pub mod Play
