-- ===== src/Subscriptions/Mint/Rows.antt =====
-- The rows that the loop of `mintDatedPlan` inserts, as a list, and that every insert succeeds.
use fann_api.Prelude.{
  ℕ, zero, suc, ◌≡◌, refl, Option, none, some, List, [], ◌∷◌, ◌++◌, arith, count, add_days, Env, ok,
}
use mathlib.Core.List.{append-nil, append_assoc}
use fann_api.Billing.{Subscription, Db, active_of}
use fann_api.Billing.Index.{AtMostOneActive, insert_subscription-eq-ok, AtMostOneActive-insert}
use fann_api.Subscriptions.Mint.{MintInput, active_row, queued_row, mint_rows}

-- The rows, from the end of the chain so far.
unfoldable pub dated_rows :
    Env → MintInput → (left i : ℕ) → (chain_end : Option ℕ) → List Subscription
dated_rows env input zero i chain_end = []
dated_rows env input (suc n) i none =
    active_row env input i
    ∷ dated_rows env input n (suc i) (some (add_days env.now input.duration_days))
dated_rows env input (suc n) i (some end) =
    queued_row env input i end
    ∷ dated_rows env input n (suc i) (some (add_days end input.duration_days))

module _ (env : Env) (input : MintInput) where
  pub mint_rows_lem :
      (n i : ℕ) (end : Option ℕ) (db : Db)
      → AtMostOneActive db.subscriptions
      → (end ≡ none → count (active_of input.user_id) db.subscriptions ≡ 0)
      → mint_rows env input n i end db ≡ (
        ok (dated_rows env input n i end),
        record db { subscriptions = db.subscriptions ++ dated_rows env input n i end },
      )
  unfolding mint_rows dated_rows
  mint_rows_lem zero i end db h free = rw append-nil
  mint_rows_lem (suc n) i none db h free =
      let row = active_row env input i in
      let t = db.subscriptions ++ row ∷ [] in
      let h' = AtMostOneActive-insert db.subscriptions row h (λ _. free refl) in
      let end = some (add_days env.now input.duration_days) in
      ground (
        arith,
        insert_subscription-eq-ok row db h',
        mint_rows_lem n (suc i) end (record db { subscriptions = t }) h' (λ e. absurd (cc)),
        append_assoc db.subscriptions (row ∷ []) (dated_rows env input n (suc i) end),
      )
  mint_rows_lem (suc n) i (some end) db h free =
      let row = queued_row env input i end in
      let t = db.subscriptions ++ row ∷ [] in
      let h' = AtMostOneActive-insert db.subscriptions row h (λ e. absurd (cc)) in
      let next = some (add_days end input.duration_days) in
      ground (
        arith,
        insert_subscription-eq-ok row db h',
        mint_rows_lem n (suc i) next (record db { subscriptions = t }) h' (λ e. absurd (cc)),
        append_assoc db.subscriptions (row ∷ []) (dated_rows env input n (suc i) next),
      )
