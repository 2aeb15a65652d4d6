-- ===== src/Devnet/Advance.antt =====
-- When the probe of a network succeeds.
use qrl_tests.Devnet.Manager.{retry_until}
use qrl_tests.Prelude.{
  ℕ, zero, suc, ◌+◌, ◌≤◌, ◌<◌, String, Option, none, some, ◌≡◌, ◌↔◌, refl, arith, subst, ◌∙◌, suc,
  ap,
}
use qrl_tests.Prelude.Int.{ℤ, pos, negsuc, pos_part}
use qrl_tests.Errors.{
  Fault, Result, ok, fail, wrapped, error_of-checked, wrapped_nil, error_of-within, error_of,
  checked, ◌>>◌,
}
use qrl_tests.Devnet.Lifecycle.{retry_until_nil}
use qrl_tests.Devnet.Probe.{
  ChainApi, advanced, balance_err, await_advance, probe_network, read_balance, watch_chain,
  reach_node,
}

-- An attempt counts if it reads a later block.
abbrev pub IsLater : ℕ → Result ℕ → Type 0
IsLater first_block answer = (block : ℕ) × (answer ≡ ok block) × (first_block < block)

abbrev pub IsPositive : ℤ → Type 0
IsPositive balance = 0 < pos_part balance

advanced-none :
    (first_block : ℕ) (answer : Result ℕ)
    → advanced first_block answer ≡ none
    → IsLater first_block answer
unfolding advanced
advanced-none first_block (fail e) h = absurd cc
advanced-none first_block (ok block) h = (block, refl, ground (arith, h))

none-advanced :
    (first_block block : ℕ) → first_block < block → advanced first_block (ok block) ≡ none
unfolding advanced
none-advanced first_block block h = ground (arith, h)

await_advance_nil :
    (chain : ChainApi) (first_block : ℕ)
    → (await_advance chain first_block ≡ none)
      ↔ ((n : ℕ) × (n ≤ chain.rounds) × IsLater first_block (chain.block_number n))
unfolding await_advance
await_advance_nil chain first_block =
    let waited =
      retry_until_nil chain.rounds chain.ctx_err
        (λ attempt. advanced first_block (chain.block_number attempt)) 0 in
    let told = wrapped_nil _ (
      retry_until chain.rounds chain.ctx_err
        (λ attempt. advanced first_block (chain.block_number attempt)) 0) in
    (
      (λ h.
          let found = waited.0 (told.0 h) in
          (
            found.0,
            found.1,
            subst (λ n. IsLater first_block (chain.block_number n)) (omega arith)
                (advanced-none first_block _ found.2),
          )),
      (λ (n, within_rounds, (block, read, later)).
          told.1 (waited.1 (n, within_rounds, later_at n block read later))),
    )
  where
    later_at :
        (n block : ℕ)
        → chain.block_number n ≡ ok block
        → first_block < block
        → advanced first_block (chain.block_number (0 + n)) ≡ none
    later_at n block read later =
        ap (λ m. advanced first_block (chain.block_number m)) (omega arith)
        ∙ ap (advanced first_block) read
        ∙ none-advanced first_block block later

balance_err-none :
    (address : String) (balance : ℤ) → (balance_err address balance ≡ none) ↔ IsPositive balance
unfolding balance_err
balance_err-none address (negsuc n) = ground arith
balance_err-none address (pos zero) = ground arith
balance_err-none address (pos (suc n)) = ground arith

-- The balance is read, and is positive.
abbrev pub IsFunded : ChainApi → Type 0
IsFunded chain = (balance : ℤ) × (chain.balance ≡ ok balance) × IsPositive balance

-- A first block is read, and some reading before the wait ends has a later block.
abbrev pub IsAdvancing : ChainApi → Type 0
IsAdvancing chain =
    (first : ℕ) × (chain.first_block ≡ ok first)
    × ((n : ℕ) × (n ≤ chain.rounds) × IsLater first (chain.block_number n))

error_of-checked_nil : (err : Option Fault) → (error_of (checked err) ≡ none) ↔ (err ≡ none)
error_of-checked_nil none = ((λ h. refl), (λ h. refl))
error_of-checked_nil (some e) = ((λ h. absurd cc), (λ h. absurd cc))

read_balance_nil :
    (chain : ChainApi) (address : String)
    → (error_of (read_balance chain address) ≡ none) ↔ IsFunded chain
unfolding read_balance
read_balance_nil chain address =
    let read =
      error_of-within "read development wallet balance" chain.balance
        (λ balance. checked (balance_err address balance)) in
    (
      (λ h.
          let found = read.0 h in
          (
            found.0,
            found.1,
            (balance_err-none address found.0).0 ((error_of-checked_nil _).0 found.2),
          )),
      (λ (balance, e, positive).
          read.1 (
            balance,
            e,
            (error_of-checked_nil _).1 ((balance_err-none address balance).1 positive),
          )),
    )

watch_chain_nil :
    (chain : ChainApi) (address : String)
    → (error_of (watch_chain chain address) ≡ none) ↔ (IsAdvancing chain × IsFunded chain)
unfolding watch_chain
watch_chain_nil chain address =
    let read =
      error_of-within "read block number" chain.first_block
        (λ first. checked (await_advance chain first) >> read_balance chain address) in
    (
      (λ h.
          let found = read.0 h in
          let both =
            (error_of-checked (await_advance chain found.0) (read_balance chain address)).0
              found.2 in
          (
            (found.0, found.1, (await_advance_nil chain found.0).0 both.0),
            (read_balance_nil chain address).0 both.1,
          )),
      (λ ((first, e, advancing), funded). read.1 (
        first,
        e,
        (error_of-checked (await_advance chain first) (read_balance chain address)).1 (
          (await_advance_nil chain first).1 advancing,
          (read_balance_nil chain address).1 funded,
        ),
      )),
    )

-- The probe of a network succeeds exactly when the wallet's address parses, the node is reached,
-- a first block is read, some reading before the wait ends has a later block, and the wallet's
-- balance is read and positive.
pub probe_network_nil :
    (chain : ChainApi) (address : String)
    → (probe_network chain address ≡ none) ↔ (
        (chain.parse_address address ≡ none)
        × (chain.dial ≡ none)
        × IsAdvancing chain
        × IsFunded chain)
unfolding probe_network reach_node
probe_network_nil chain address =
    let parsed =
      error_of-checked (wrapped "parse development wallet address" (chain.parse_address address))
        (reach_node chain address) in
    let dialed =
      error_of-checked (wrapped "dial execution RPC" chain.dial) (watch_chain chain address) in
    (
      (λ h.
          let first = parsed.0 h in
          let second = dialed.0 first.1 in
          let watched = (watch_chain_nil chain address).0 second.1 in
          ((wrapped_nil _ _).0 first.0, (wrapped_nil _ _).0 second.0, watched.0, watched.1)),
      (λ (parses, dials, advancing, funded). parsed.1 (
        (wrapped_nil _ _).1 parses,
        dialed.1 ((wrapped_nil _ _).1 dials, (watch_chain_nil chain address).1 (advancing, funded)),
      )),
    )
