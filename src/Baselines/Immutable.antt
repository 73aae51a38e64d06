-- ===== src/Baselines/Immutable.antt =====
-- A baseline that is registered can never be changed.
use multi_agent_aircraft_dev.Base.{
  ℕ, ◌≡◌, sym, ap, ◌∙◌, ◌⊎◌, inl, inr, none, some, List, [], ◌∷◌, arith, ◌==◌, ==_iff, nat_eq,
  Bool-cases, Option-cases,
}
use multi_agent_aircraft_dev.Dict.{lookup, insert, lookup-insert, lookup-insert_self}
use multi_agent_aircraft_dev.Errors.{ok, err, Result-cases}
use multi_agent_aircraft_dev.Baselines.{Baseline, BaselineStore, baseline_eq, register}

-- An accepted registration: its place was free or held the same baseline, and holds it now.
pub register-ok :
    (b : Baseline) (store : BaselineStore) {made : Baseline} {store' : BaselineStore}
    → register b store ≡ ok (made, store')
    → ((lookup b.id store ≡ none) ⊎ (lookup b.id store ≡ some b))
      × (made ≡ b)
      × (store' ≡ insert b.id b store)
unfolding register
register-ok b store h = elim (Option-cases (lookup b.id store)) [
  | inl free ↦ (inl free, ground arith, ground arith)
  | inr (old, there) ↦ elim (Bool-cases (old == b)) [
    | inl same ↦ (inr (there ∙ ap some ((==_iff old b).0 same)), ground arith, ground arith)
    | inr other ↦ absurd (ground arith)
  ]
]

-- A registration keeps every baseline that stands in the store.
pub register-keeps :
    (b : Baseline) (store : BaselineStore) {made : Baseline} {store' : BaselineStore}
    → register b store ≡ ok (made, store')
    → (j : ℕ) {old : Baseline} → lookup j store ≡ some old
    → lookup j store' ≡ some old
register-keeps b store h j {old} there =
    let (free, _, d) = register-ok b store h in
    elim (Bool-cases (b.id == j)) [
      | inl same ↦
          let e : b.id ≡ j = (==_iff b.id j).0 same in
          elim free [
            | inl f ↦ absurd (cc (f, there, e))
            | inr s ↦ rw (d, ← e) (lookup-insert_self b.id b store ∙ sym s ∙ (rw e there))
          ]
      | inr other ↦ rw (d, lookup-insert b.id j b store, other) there
    ]

-- The registry after a row of registrations, the refused ones included.
pub register_all : List Baseline → BaselineStore → BaselineStore
register_all [] store = store
register_all (b ∷ bs) store =
    register_all bs (elim (register b store) [ ok (_, store') ↦ store' | err _ ↦ store ])

-- Whatever is registered later, a registered baseline is read back as it was registered.
pub register_all-keeps :
    (bs : List Baseline) (store : BaselineStore) (j : ℕ) {old : Baseline}
    → lookup j store ≡ some old
    → lookup j (register_all bs store) ≡ some old
unfolding register_all
register_all-keeps [] store j there = there
register_all-keeps (b ∷ bs) store j there = elim (Result-cases (register b store)) [
  | inl ((made, store'), done) ↦
      rw (done, register_all) (register_all-keeps bs store' j (register-keeps b store done j there))
  | inr (e, refused) ↦ rw (refused, register_all) (register_all-keeps bs store j there)
]
