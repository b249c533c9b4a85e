-- ===== src/Commands/Create/Repeats.antt =====
-- A repeated request to create a wallet.
use wallex_sanbox.Aggregate as Wallet
