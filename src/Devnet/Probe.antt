-- ===== src/Devnet/Probe.antt =====
-- devnet/probe.go: whether the chain of a network advances. The execution node's answers are a
-- record.
use qrl_tests.Prelude.{ℕ, zero, suc, String, Option, none, some, leb, if◌then◌else◌}
use qrl_tests.Prelude.Text.{◌<>◌, decimal}
use qrl_tests.Prelude.Int.{ℤ, pos, negsuc}
use qrl_tests.Errors.{
  Fault, Result, ok, fail, plain, wrapped, wrap, within, checked, error_of, ◌>>=◌, ◌>>◌,
}
use qrl_tests.Devnet.Manager.{retry_until}

-- `first_block` answers the first reading and `block_number` the n-th one of the wait, which ends
-- after `rounds` ticks with `ctx_err`.
pub record ChainApi : Type 0 where
  pub parse_address : String → Option Fault
  pub dial : Option Fault
  pub first_block : Result ℕ
  pub block_number : ℕ → Result ℕ
  pub balance : Result ℤ
  pub rounds : ℕ
  pub ctx_err : Fault

abbrev pub chain_advancement_window : String
chain_advancement_window = "2m0s"

-- What an attempt answers for a block that was read.
unfoldable pub advanced : ℕ → Result ℕ → Option Fault
advanced first_block (fail e) = some (wrap "read advancing block number" e)
advanced first_block (ok block) =
    if leb block first_block
    then some (plain ("block number remains at " <> decimal block))
    else none

unfoldable pub balance_err : String → ℤ → Option Fault
balance_err address (negsuc n) =
    some (plain ("development wallet " <> address <> " has no balance"))
balance_err address (pos zero) =
    some (plain ("development wallet " <> address <> " has no balance"))
balance_err address (pos (suc n)) = none

unfoldable pub await_advance : ChainApi → ℕ → Option Fault
unfolding advanced retry_until
await_advance chain first_block =
    wrapped
      ("chain did not advance beyond block "
        <> decimal first_block
        <> " within "
        <> chain_advancement_window)
      (retry_until chain.rounds chain.ctx_err
        (λ attempt. advanced first_block (chain.block_number attempt)) 0)

-- What comes after the wait, after the first reading, and after the parsing of the address.
unfoldable pub read_balance : ChainApi → String → Result (Unit {0})
unfolding balance_err
read_balance chain address = within "read development wallet balance" chain.balance >>= λ balance.
    checked (balance_err address balance)

unfoldable pub watch_chain : ChainApi → String → Result (Unit {0})
unfolding await_advance read_balance
watch_chain chain address = within "read block number" chain.first_block >>= λ first_block.
    (checked (await_advance chain first_block) >> read_balance chain address)

unfoldable pub reach_node : ChainApi → String → Result (Unit {0})
unfolding watch_chain
reach_node chain address =
    checked (wrapped "dial execution RPC" chain.dial) >> watch_chain chain address

-- probeNetwork
unfoldable pub probe_network : ChainApi → String → Option Fault
unfolding reach_node
probe_network chain address = error_of (
    checked (wrapped "parse development wallet address" (chain.parse_address address))
    >> reach_node chain address)
