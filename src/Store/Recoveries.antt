-- ===== src/Store/Recoveries.antt =====
-- What ReapStale counts and changes.
use axmi_pusher.Base.{
  ltb, some, ◌&&◌, refl, [], ◌∷◌, count, update, ◌+◌, arith, ◌≡◌, false, List, ℕ,
}
use axmi_pusher.Store.{Message, Store, is_stale, reap_row, reap_stale}
use axmi_pusher.Store.Claims.{pending_row}

pub total_retries : List Message → ℕ
total_retries [] = 0
total_retries (m ∷ rows) = m.retry_count + total_retries rows

reap_rows :
    (lease max now written : ℕ) (rows : List Message)
    → (total_retries (update (is_stale lease now) (reap_row max written) rows)
        ≡ total_retries rows + count (is_stale lease now) rows)
      × (count (is_stale lease now) (update (is_stale lease now) (reap_row max written) rows) ≡ 0)
      × (count (λ m. pending_row m) (update (is_stale lease now) (reap_row max written) rows)
          ≡ count (λ m. pending_row m) rows
            + count (λ m. is_stale lease now m && ltb (m.retry_count + 1) max) rows)
unfolding is_stale reap_row total_retries
reap_rows lease max now written [] = (refl, refl, refl)
reap_rows lease max now written (m ∷ rows) =
    let (a, b, c) = reap_rows lease max now written rows in
    (ground (arith, a), ground (arith, b), ground (arith, c))

-- A recovery returns the number of rows in flight whose lease is over; it adds one to the count of
-- each of these and to no other, leaves none of them in flight with a lease that is over, and makes
-- pending those among them that stay below the limit, and no other.
pub reap_stale_accounts :
    (lease max now written : ℕ) (s : Store)
    → let rows = s.messages in
      let rows' = (reap_stale false lease max now written s).0.messages in
      let n = count (is_stale lease now) rows in
      ((reap_stale false lease max now written s).1 ≡ some n)
      × (total_retries rows' ≡ total_retries rows + n)
      × (count (is_stale lease now) rows' ≡ 0)
      × (count (λ m. pending_row m) rows'
          ≡ count (λ m. pending_row m) rows
            + count (λ m. is_stale lease now m && ltb (m.retry_count + 1) max) rows)
unfolding reap_stale
reap_stale_accounts lease max now written s =
    let (a, b, c) = reap_rows lease max now written s.messages in (refl, a, b, c)
