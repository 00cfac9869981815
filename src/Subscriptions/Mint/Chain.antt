-- ===== src/Subscriptions/Mint/Chain.antt =====
-- The end of the chain of periods, and the counts of the rows that are minted behind it.
use fann_api.Prelude.{
  ℕ, zero, suc, ◌+◌, ◌≡◌, refl, true, Option, none, some, List, [], ◌∷◌, arith, get_or, length, All,
  All-first, count, add_days, Env, first, first-eq-none, first-ne-none, ap, ◌∙◌, is_some,
}
use fann_api.Billing.{Subscription, Db, active_of, queued_of}
use fann_api.Billing.Index.{HasExpiry}
use fann_api.Subscriptions.Mint.{MintInput, chain_end, chain_start, extend_chain, queued_durations}
use fann_api.Subscriptions.Mint.Rows.{dated_rows}

extend_chain-some :
    (env : Env) (e : ℕ) (ds : List ℕ) → is_some (extend_chain env (some e) ds) ≡ true
extend_chain-some env e [] = refl
extend_chain-some env e (d ∷ ds) = extend_chain-some env (add_days e d) ds

chain-eq-none :
    (env : Env) (running : Option Subscription) (ds : List ℕ)
    → ((s : Subscription) → running ≡ some s → is_some s.expires_at ≡ true)
    → extend_chain env (chain_start env running ds) ds ≡ none
    → (running ≡ none) × (ds ≡ [])
chain-eq-none env none [] h e = (refl, refl)
chain-eq-none env (some s) [] h e = ground (arith, h s refl)
chain-eq-none env running (d ∷ ds) h e = ground (
  arith,
  extend_chain-some env (add_days (get_or (chain_start env running (d ∷ ds)) env.node_now) d) ds,
)

-- The chain is empty only when nothing runs and nothing waits.
pub chain_end-eq-none :
    (env : Env) (user : ℕ) (db : Db)
    → All HasExpiry db.subscriptions
    → chain_end env user db ≡ none
    → (count (active_of user) db.subscriptions ≡ 0) × (queued_durations user db ≡ [])
unfolding chain_end
chain_end-eq-none env user db h e =
    let running = first (active_of user) db.subscriptions in
    let (idle, nothing) =
      chain-eq-none env running (queued_durations user db)
        (λ s found.
          let (p, q) = All-first HasExpiry (active_of user) db.subscriptions s h found in
          p (ground arith))
        e in
    (first-eq-none (active_of user) db.subscriptions idle, nothing)

pub chain_end_free :
    (env : Env) (user : ℕ) (db : Db)
    → count (active_of user) db.subscriptions ≡ 0
    → queued_durations user db ≡ []
    → chain_end env user db ≡ none
unfolding chain_end
chain_end_free env user db a q = rw (first-ne-none (active_of user) db.subscriptions a, q)

pub sum : List ℕ → ℕ
sum [] = 0
sum (d ∷ ds) = d + sum ds

pub extend_chain-sum :
    (env : Env) (e : ℕ) (ds : List ℕ) → extend_chain env (some e) ds ≡ some (add_days e (sum ds))
unfolding sum
extend_chain-sum env e [] = ap some (omega arith)
extend_chain-sum env e (d ∷ ds) = extend_chain-sum env (add_days e d) ds ∙ ap some (omega arith)

module _ (env : Env) (input : MintInput) where
  pub length-dated_rows : (n i : ℕ) (end : Option ℕ) → length (dated_rows env input n i end) ≡ n
  unfolding dated_rows
  length-dated_rows zero i end = refl
  length-dated_rows (suc n) i none = omega (arith, length-dated_rows n (suc i))
  length-dated_rows (suc n) i (some e) = omega (arith, length-dated_rows n (suc i))

  pub queued-dated_rows :
      (n i e : ℕ)
      → (count (active_of input.user_id) (dated_rows env input n i (some e)) ≡ 0)
        × (count (queued_of input.user_id) (dated_rows env input n i (some e)) ≡ n)
  unfolding dated_rows
  queued-dated_rows zero i e = ground arith
  queued-dated_rows (suc n) i e =
      ground (arith, queued-dated_rows n (suc i) (add_days e input.duration_days))

  pub active-dated_rows :
      (n i : ℕ)
      → (count (active_of input.user_id) (dated_rows env input (suc n) i none) ≡ 1)
        × (count (queued_of input.user_id) (dated_rows env input (suc n) i none) ≡ n)
  unfolding dated_rows
  active-dated_rows n i =
      ground (arith, queued-dated_rows n (suc i) (add_days env.now input.duration_days))
