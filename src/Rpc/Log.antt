-- ===== src/Rpc/Log.antt =====
-- The list of submitted transactions as a map under their hashes.
use lite_soroban.Prelude.{
  List, [], ◌∷◌, some, ◌≡◌, refl, inl, inr, arith, Bool-cases, same_bytes, same_bytes_refl,
  same_bytes_eq,
}
use lite_soroban.Xdr.{Bytes}
use lite_soroban.Rpc.State.{SubmittedTx, find_tx, set_tx}

pub find-set_tx : (t : SubmittedTx) (ts : List SubmittedTx) → find_tx t.hash (set_tx t ts) ≡ some t
unfolding find_tx set_tx
find-set_tx t [] = rw (same_bytes_refl t.hash) refl
find-set_tx t (s ∷ ts) = elim (Bool-cases (same_bytes s.hash t.hash)) [
  | inl h ↦ rw (h, set_tx, find_tx, same_bytes_refl t.hash) refl
  | inr h ↦ rw (h, set_tx, find_tx, h) (find-set_tx t ts)
]

-- Another transaction stays.
pub find-set_tx_ne :
    (t : SubmittedTx) (ts : List SubmittedTx) (h : Bytes)
    → ¬ (t.hash ≡ h)
    → find_tx h (set_tx t ts) ≡ find_tx h ts
unfolding find_tx set_tx
find-set_tx_ne t [] h n = ground (arith, same_bytes_eq t.hash h)
find-set_tx_ne t (s ∷ ts) h n =
    ground (arith, same_bytes_eq t.hash h, same_bytes_eq s.hash t.hash, find-set_tx_ne t ts h n)
