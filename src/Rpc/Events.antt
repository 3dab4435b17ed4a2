-- ===== src/Rpc/Events.antt =====
-- `getEvents` of src/fake-rpc.ts: which events are on a page.
use lite_soroban.Prelude.{
  ℕ, suc, ◌≤◌, ◌<◌, pos, ◌≤ℤ◌, All, Bool, true, false, List, [], ◌∷◌, ◌++◌, Option, none, some, ◌≡◌,
  ◌≢◌, ◌↔◌, refl, ap, ◌⊎◌, inl, inr, arith, Bool-cases, length, select, any, not, ◌&&◌, ltb,
  same_bytes, same_bytes_eq, same_bytes_refl,
}
use lite_soroban.Xdr.{Bytes}
use lite_soroban.Ledger.{Ledger}
use lite_soroban.Rpc.State.{BufferedEvent, EventsQuery, EventsPage, EventFilter, last_closed}
use lite_soroban.Rpc.Reading.{
  matches, or_zero_ledger, last_cursor, passes_filter, passes_some, address_of, contract_kind,
  refused_contract, refused_kind,
}

-- Some element of the list has the property.
unfoldable pub Some {ℓ} : {A : Type ℓ} → (A → Type 0) → List A → Type 0
Some P [] = ⊥
Some P (x ∷ xs) = P x ⊎ Some P xs

-- A filter accepts an event: its contracts, if it names any, have the event's among them, and its
-- type, if it has one, is "contract".
unfoldable pub Accepts : BufferedEvent → EventFilter → Type 0
Accepts e f =
    ((f.contract_ids ≡ []) ⊎ Some (λ c. c ≡ address_of e.contract_id) f.contract_ids)
    × ((f.kind ≡ none) ⊎ (f.kind ≡ some []) ⊎ (f.kind ≡ some contract_kind))

unfoldable pub Wanted : EventsQuery → BufferedEvent → Type 0
Wanted q e =
    (or_zero_ledger q.start_ledger ≤ e.ledger) × ((q.filters ≡ []) ⊎ Some (Accepts e) q.filters)

-- The events of the log that a query wants, and the page of them.
pub record IsEventsPage (q : EventsQuery) (log : List BufferedEvent) (p : EventsPage) : Type 0 where
  pub rest : List BufferedEvent
  pub prefix : select (matches q) log ≡ p.events ++ rest
  pub whole : (q.limit ≡ none) ⊎ (q.limit ≡ some 0) → rest ≡ []
  pub limit : (n : ℕ) → q.limit ≡ some (suc n) → length p.events ≤ suc n
  pub full : (n : ℕ) → q.limit ≡ some (suc n) → rest ≢ [] → length p.events ≡ suc n
  pub cursor : p.cursor ≡ last_cursor p.events

contradiction : (b : Bool) → b ≡ true → b ≡ false → ⊥
contradiction b p q = cc

any_iff {ℓ} :
    {A : Type ℓ} (p : A → Bool) (P : A → Type 0)
    → ((x : A) → (p x ≡ true) ↔ P x)
    → (xs : List A) → (any p xs ≡ true) ↔ Some P xs
unfolding Some
any_iff p P h [] = ((λ e. cc), (λ e. absurd e))
any_iff p P h (x ∷ xs) = elim (Bool-cases (p x)) [
  | inl b ↦ ((λ e. inl ((h x).0 b)), (λ e. rw b refl))
  | inr b ↦
      let (f, g) = any_iff p P h xs in
      (
        (λ e. inr (f (rw b at e))),
        (λ e. rw b (elim e [ inl q ↦ absurd (contradiction (p x) ((h x).1 q) b) | inr q ↦ g q ])),
      )
]

same_bytes_iff : (xs ys : Bytes) → (same_bytes xs ys ≡ true) ↔ (xs ≡ ys)
same_bytes_iff xs ys = (same_bytes_eq xs ys, (λ e. rw e (same_bytes_refl ys)))

not-not : (b : Bool) → not (not b) ≡ true → b ≡ true
not-not b h = ground arith

contracts_iff :
    (ids : List Bytes) (c : Bytes)
    → (not (refused_contract ids c) ≡ true) ↔ ((ids ≡ []) ⊎ Some (λ i. i ≡ c) ids)
unfolding Some
contracts_iff [] c = ((λ h. inl refl), (λ h. refl))
contracts_iff (i ∷ is) c =
    let (f, g) = any_iff (λ x. same_bytes x c) (λ x. x ≡ c) (λ x. same_bytes_iff x c) (i ∷ is) in
    (
      (λ h. inr (f (not-not (any (λ x. same_bytes x c) (i ∷ is)) h))),
      (λ h. elim h [ inl q ↦ cc | inr q ↦ rw (g q) refl ]),
    )

some_inj {ℓ} : {A : Type ℓ} {a b : A} → some a ≡ some b → a ≡ b
some_inj h = cc

kind_iff :
    (k : Option Bytes)
    → (not (refused_kind k) ≡ true) ↔ ((k ≡ none) ⊎ (k ≡ some []) ⊎ (k ≡ some contract_kind))
kind_iff none = ((λ h. inl refl), (λ h. refl))
kind_iff (some []) = ((λ h. inr (inl refl)), (λ h. refl))
kind_iff (some (b ∷ bs)) =
    let (f, g) = same_bytes_iff (b ∷ bs) contract_kind in
    (
      (λ h. inr (inr (ap some (f (not-not (same_bytes (b ∷ bs) contract_kind) h))))),
      (λ h. elim h [
        | inl q ↦ cc
        | inr r ↦ elim r [ inl q ↦ cc | inr q ↦ rw (g (some_inj q)) refl ]
      ]),
    )

and_iff : (a b : Bool) {P Q : Type 0} → (a ≡ true) ↔ P → (b ≡ true) ↔ Q → (a && b ≡ true) ↔ (P × Q)
and_iff true b h k = ((λ e. (h.0 refl, k.0 e)), (λ e. k.1 e.1))
and_iff false b h k = ((λ e. cc), (λ e. h.1 e.0))

passes_filter_iff : (e : BufferedEvent) (f : EventFilter) → (passes_filter f e ≡ true) ↔ Accepts e f
unfolding passes_filter Accepts
passes_filter_iff e f =
    and_iff _ _ (contracts_iff f.contract_ids (address_of e.contract_id)) (kind_iff f.kind)

passes_some_iff :
    (e : BufferedEvent) (fs : List EventFilter)
    → (passes_some fs e ≡ true) ↔ ((fs ≡ []) ⊎ Some (Accepts e) fs)
passes_some_iff e [] = ((λ h. inl refl), (λ h. refl))
passes_some_iff e (f ∷ fs) =
    let (to, from) =
      any_iff (λ g. passes_filter g e) (Accepts e) (λ g. passes_filter_iff e g) (f ∷ fs) in
    ((λ h. inr (to h)), (λ h. elim h [ inl q ↦ cc | inr q ↦ from q ]))

start_iff : (a b : ℕ) → (not (ltb a b) ≡ true) ↔ (b ≤ a)
start_iff a b = ((λ h. ground arith), (λ h. ground arith))

-- The test of the filters says what the filters say.
pub matches_iff : (q : EventsQuery) (e : BufferedEvent) → (matches q e ≡ true) ↔ Wanted q e
unfolding matches Wanted
matches_iff q e =
    and_iff _ _ (start_iff e.ledger (or_zero_ledger q.start_ledger)) (passes_some_iff e q.filters)

-- A filter that names nothing but contracts and a type that events have.
abbrev pub PlainFilter : EventFilter → Type 0
PlainFilter f = (f.topics ≡ []) × ((f.kind ≡ none) ⊎ (f.kind ≡ some contract_kind))

-- A query that stays within what the handler reads and what a node accepts: it starts in a closed
-- ledger, has no cursor and no end, at most 5 filters without topics, and a limit of at most 10,000.
pub record IsPlainQuery (l : Ledger) (q : EventsQuery) : Type 0 where
  pub start : ℕ
  pub from : q.start_ledger ≡ some start
  pub positive : 0 < start
  pub closed : pos start ≤ℤ last_closed l
  pub no_end : q.end_ledger ≡ none
  pub no_cursor : q.cursor ≡ none
  pub few_filters : length q.filters ≤ 5
  pub plain_filters : All PlainFilter q.filters
  pub modest : (q.limit ≡ none) ⊎ ((n : ℕ) × (q.limit ≡ some n) × (0 < n) × (n ≤ 10000))
