-- ===== src/Devnet/Endings.antt =====
-- When a network is stopped, and what a network that was started is.
use qrl_tests.Devnet.Started.{start_provisioned}
use qrl_tests.Devnet.Lifecycle.{retry_until_nil}
use qrl_tests.Devnet.Participants.{IsAscending, IsConnected, participants_from_services_lem}
use qrl_tests.Devnet.Environment.{
  Environment, Participant, primary, resolve_environment, participants_from_services,
}
use qrl_tests.Devnet.Manager.{
  destroy_and_confirm, stop, Engine, StartOptions, occupied_err, start, start_defaults, retry_until,
  await_network,
}
use qrl_tests.Errors.{
  Result, ok, join_errors-IsNil, context, Sentinel, Result-cases, within, Fault, fail, checked,
  >>=-eq-ok, >>-eq-ok, wrapped, ok_injective,
}
use qrl_tests.Prelude.{
  ℕ, ◌≤◌, Option, none, some, [], ◌∷◌, ◌≡◌, refl, ◌↔◌, arith, All, inl, inr, ◌⊎◌, subst, Bool,
  String, false, true, Option-cases,
}

occupied_err-none : (found : Result Bool) → (occupied_err found ≡ none) ↔ (found ≡ ok false)
occupied_err-none found = ground arith

destroy_and_confirm_nil :
    (engine : Engine) (name : String)
    → (destroy_and_confirm engine name ≡ none) ↔ (
        (engine.destroy name ≡ none)
        × ((n : ℕ) × (n ≤ engine.confirm_rounds) × (engine.confirm name n ≡ ok false)))
unfolding destroy_and_confirm
destroy_and_confirm_nil engine name =
    let both = join_errors-IsNil (
      engine.destroy name
      ∷ retry_until engine.confirm_rounds (context Sentinel.deadline_exceeded)
          (λ attempt. occupied_err (engine.confirm name attempt)) 0
      ∷ []) in
    let confirmed =
      retry_until_nil engine.confirm_rounds (context Sentinel.deadline_exceeded)
        (λ attempt. occupied_err (engine.confirm name attempt)) 0 in
    (
      (λ h.
          let found = confirmed.0 (both.0 h).1.0 in
          (
            (both.0 h).0,
            (
              found.0,
              found.1,
              (occupied_err-none (engine.confirm name found.0)).0
                  (subst (λ k. occupied_err (engine.confirm name k) ≡ none) (omega arith) found.2),
            ),
          )),
      (λ (destroyed, (n, bound, gone)). both.1 (
        destroyed,
        (
          confirmed.1 (
            n,
            bound,
            subst (λ k. occupied_err (engine.confirm name k) ≡ none) (omega arith)
                ((occupied_err-none (engine.confirm name n)).1 gone),
          ),
          tt,
        ),
      )),
    )

-- A network is stopped without an error exactly when the engine answers, and it holds no such
-- network, or it destroys it and an attempt before the deadline confirms that its place is free.
pub stop_nil :
    (engine : Engine) (name : String)
    → ((stop engine name).0 ≡ none) ↔ (
        (engine.connect ≡ none)
        × ((engine.enclave_exists name ≡ ok false)
            ⊎ ((engine.enclave_exists name ≡ ok true)
                × (engine.destroy name ≡ none)
                × ((n : ℕ) × (n ≤ engine.confirm_rounds) × (engine.confirm name n ≡ ok false)))))
unfolding stop
stop_nil engine name =
    let gone = destroy_and_confirm_nil engine name in
    elim (Option-cases engine.connect) [
      | inr (fault, e) ↦ (λ h. absurd (ground (arith, e)), λ h. absurd (ground (arith, e, h.0)))
      | inl connected ↦ (
        λ h. elim (Result-cases (engine.enclave_exists name)) [
          | inr (fault, e) ↦ absurd (ground (arith, connected, e))
          | inl (true, e) ↦
              let destroyed = gone.0 (ground (arith, connected, e)) in
              (connected, inr (e, destroyed.0, destroyed.1))
          | inl (false, e) ↦ (connected, inl e)
        ],
        λ h. elim h.1 [
          | inl missing ↦ ground (arith, connected, missing)
          | inr (there, destroyed, confirmed) ↦
              ground (arith, connected, there, gone.1 (destroyed, confirmed))
        ],
      )
    ]

within_ok {ℓ} :
    {A : Type ℓ} (text : String) (r : Result A) {a : A} → within text r ≡ ok a → r ≡ ok a
within_ok text (ok a) h = h
within_ok text (fail e) h = cc

checked-wrapped :
    (text : String) (err : Option Fault) → checked (wrapped text err) ≡ ok tt → err ≡ none
checked-wrapped text none h = refl
checked-wrapped text (some e) h = cc

-- A network that is ready for the options.
abbrev pub IsReady : Engine → StartOptions → Environment → Type 0
IsReady engine options environment =
    (environment.enclave_name ≡ options.enclave_name)
    × (environment.backend ≡ options.backend)
    × IsAscending environment.participants
    × All IsConnected environment.participants
    × ((first : Participant) × (n : ℕ) × (primary environment ≡ ok first)
        × (n ≤ engine.probe_rounds)
        × (engine.probe first.execution.rpc_url n ≡ none))

resolve_environment_lem :
    (engine : Engine) (name : String) (environment : Environment)
    → resolve_environment engine.services name ≡ ok environment
    → (environment.enclave_name ≡ name)
      × IsAscending environment.participants
      × All IsConnected environment.participants
unfolding resolve_environment
resolve_environment_lem engine name environment h =
    let (services, s, h1) = >>=-eq-ok (engine.services name) _ h in
    let (participants, p, done) = >>=-eq-ok (participants_from_services services) _ h1 in
    let (ordered, connected) = participants_from_services_lem services participants p in
    subst
      (λ (e : Environment).
        (e.enclave_name ≡ name) × IsAscending e.participants × All IsConnected e.participants)
      (ok_injective done) (refl, ordered, connected)

await_network_lem :
    (engine : Engine) (options : StartOptions) (environment : Environment)
    → await_network engine options ≡ ok environment
    → IsReady engine options environment
unfolding await_network
await_network_lem engine options environment h =
    let name = options.enclave_name in
    let (resolved, r, h1) = >>=-eq-ok (within _ (resolve_environment engine.services name)) _ h in
    let ready : Environment = record resolved { backend = options.backend } in
    let (first, p, h2) = >>=-eq-ok (within _ (primary ready)) _ h1 in
    let attempts =
      retry_until engine.probe_rounds engine.probe_ctx_err (engine.probe first.execution.rpc_url)
        0 in
    let (unit, c, done) = >>-eq-ok (checked (wrapped "wait for network readiness" attempts)) _ h2 in
    let (n, bound, answered) =
      (retry_until_nil engine.probe_rounds engine.probe_ctx_err
          (engine.probe first.execution.rpc_url) 0).0
        (checked-wrapped _ attempts c) in
    let (same, ordered, connected) =
      resolve_environment_lem engine name resolved (within_ok _ _ r) in
    subst (IsReady engine options) (ok_injective done) (
      same,
      refl,
      ordered,
      connected,
      (
        first,
        n,
        within_ok _ (primary ready) p,
        bound,
        subst (λ k. engine.probe first.execution.rpc_url k ≡ none) (omega arith) answered,
      ),
    )

-- What Start returns without an error is a network of its own enclave and of the backend asked for,
-- with its participants in ascending order and connected, whose first participant has answered the
-- probe at an attempt before the context ended.
pub start_ok :
    (engine : Engine) (given : StartOptions) (environment : Environment)
    → (start engine given).0 ≡ ok environment
    → IsReady engine (start_defaults given) environment
start_ok engine given environment h =
    await_network_lem engine (start_defaults given) environment
      (start_provisioned engine given environment h).2.1
