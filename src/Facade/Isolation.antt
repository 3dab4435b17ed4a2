-- ===== src/Facade/Isolation.antt =====
-- `sandboxed` of src/litestellar.ts.
use lite_soroban.Prelude.{List, ◌++◌, some, ◌≡◌, refl}
use lite_soroban.Ledger.{Snapshot, snapshot}
use lite_soroban.Ledger.Snapshots.{restore-snapshot}
use lite_soroban.Facade.{LiteStellar, sandboxed}

-- Whatever the body does to the ledger, if it leaves the snapshots that there are: afterwards the
-- store, the clock and the counter are those from before, and what the body returned is returned.
pub sandboxed_lem {ℓ} :
    {A : Type ℓ} (s : LiteStellar) (body : LiteStellar → A × LiteStellar) (later : List Snapshot)
    → let start = record s { ledger = (snapshot s.ledger).0 } in
      (body start).1.ledger.snapshots ≡ start.ledger.snapshots ++ later
      → let (r, s') = sandboxed s body in
        (r ≡ some (body start).0)
        × (s'.ledger.store ≡ s.ledger.store)
        × (s'.ledger.ledger_seq ≡ s.ledger.ledger_seq)
        × (s'.ledger.timestamp ≡ s.ledger.timestamp)
        × (s'.ledger.prng_counter ≡ s.ledger.prng_counter)
unfolding sandboxed
sandboxed_lem s body later h =
    let start = record s { ledger = (snapshot s.ledger).0 } in
    rw (restore-snapshot s.ledger (body start).1.ledger later h, sandboxed)
      (refl, refl, refl, refl, refl)
