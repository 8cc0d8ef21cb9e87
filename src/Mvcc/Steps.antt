-- ===== src/Mvcc/Steps.antt =====
-- What snapshots hold in every state that the accesses of transactions reach.
use heliondb.Base.{
  ℕ, ◌+◌, ◌≤◌, ◌<◌, ◌^◌, Bool, true, false, ◌||◌, ◌≡◌, refl, ◌==◌, arith, if◌then◌else◌, inl, inr,
  subst, Bool-cases, ap, sym, ◌∙◌, zero, suc, ltb,
}
use heliondb.Base.NatSet
use heliondb.Base.NatSet.{contains, contains-insert, contains-remove}
use heliondb.Mvcc.{
  MvccStore, Transaction, with_start_id, fetch_add, read_active, begun, add_active,
  commit_transaction, rollback_transaction,
}
use heliondb.Mvcc.Accesses.{
  Phase, System, is_running, is_live, move_to, initial, Step, counts, reads, registers, commits,
  rolls_back, Reach, here, next,
}

-- A snapshot holds exactly the transactions that were live when it was read; its own was not.
abbrev pub IsExact : ℕ → Transaction → (ℕ → Bool) → Type 0
IsExact n tx seen =
    (tx.tx_id ≡ n)
    × (tx.snapshot.txid ≡ n)
    × (seen n ≡ false)
    × ((m : ℕ) → contains tx.snapshot.active m ≡ seen m)

abbrev pub Holds : ℕ → Phase → Type 0
Holds n Phase.unused = Unit
Holds n Phase.counted = Unit
Holds n Phase.ended = Unit
Holds n (Phase.pictured tx seen) = IsExact n tx seen
Holds n (Phase.running tx seen) = IsExact n tx seen

pub record Inv (s : System) : Type 0 where
  pub positive : 1 ≤ s.store.next_txid
  pub zero_unused : s.phases 0 ≡ Phase.unused
  pub above_unused : (n : ℕ) → s.store.next_txid ≤ n → s.phases n ≡ Phase.unused
  pub active : (n : ℕ) → contains s.store.active_txns n ≡ is_live s.phases n
  pub snapshots : (n : ℕ) → Holds n (s.phases n)

initial-Inv : (start_id : ℕ) → Inv (initial start_id)
unfolding with_start_id
initial-Inv start_id = record {
  positive = ground arith;
  zero_unused = refl;
  above_unused = λ n h. refl;
  active = λ n. ground arith;
  snapshots = λ n. tt;
}

Holds-move :
    (n : ℕ) (p : Phase) (phases : ℕ → Phase)
    → Holds n p
    → ((m : ℕ) → Holds m (phases m))
    → (m : ℕ) → Holds m (move_to n p phases m)
Holds-move n p phases h k m = elim (Bool-cases (m == n)) [
  | inl e ↦ rw e (subst (λ i. Holds i p) (ground arith) h)
  | inr e ↦ rw e (k m)
]

abbrev pub is_unused : Phase → Bool
is_unused Phase.unused = true
is_unused _ = false

-- A number that has been given out is none of the reserved 0 and the later ones.
pub given :
    (s : System) (n : ℕ)
    → Inv s
    → is_unused (s.phases n) ≡ false
    → (1 ≤ n) × (n < s.store.next_txid)
given s n i h = (
  above_zero n h,
  elim (Bool-cases (ltb n s.store.next_txid)) [
    | inl lt ↦ ground arith
    | inr ge ↦ absurd (cc (h, i.above_unused n (ground arith)))
  ],
)
  where
    above_zero : (n : ℕ) → is_unused (s.phases n) ≡ false → 1 ≤ n
    above_zero zero h = absurd (cc (h, i.zero_unused))
    above_zero (suc n) h = omega arith

move_other :
    (n m : ℕ) (p : Phase) (phases : ℕ → Phase) → m == n ≡ false → move_to n p phases m ≡ phases m
move_other n m p phases h = rw h refl

-- A step of a number that has been given out.
moved-Inv :
    (s : System) (n : ℕ) (p : Phase) (store : MvccStore)
    → Inv s
    → is_unused (s.phases n) ≡ false
    → store.next_txid ≡ s.store.next_txid
    → Holds n p
    → ((m : ℕ) → contains store.active_txns m ≡ is_live (move_to n p s.phases) m)
    → Inv (record { store = store; phases = move_to n p s.phases })
moved-Inv s n p store i u same h active =
    let (low, high) = given s n i u in
    record {
      positive = omega (arith, i.positive);
      zero_unused = move_other n 0 p s.phases (ground arith) ∙ i.zero_unused;
      above_unused =
          λ m le. move_other n m p s.phases (ground arith) ∙ i.above_unused m (omega arith);
      active = active;
      snapshots = Holds-move n p s.phases h i.snapshots;
    }

-- Where a number is not registered before the step nor after it, the same ones are live.
live_same :
    (n m : ℕ) (p : Phase) (phases : ℕ → Phase)
    → is_running (phases n) ≡ false
    → is_running p ≡ false
    → is_live (move_to n p phases) m ≡ is_live phases m
live_same n m p phases h k = elim (Bool-cases (m == n)) [
  | inl e ↦
      rw (e, k)
        (ap (λ b. (m == 0) || b)
          (sym (subst (λ i. is_running (phases i) ≡ false) (ground arith) h)))
  | inr e ↦ rw e refl
]

counts-Inv :
    (s : System)
    → s.store.next_txid + 1 < 2 ^ 64
    → Inv s
    → Inv (record {
      store = (fetch_add s.store).1;
      phases = move_to s.store.next_txid Phase.counted s.phases;
    })
counts-Inv s h i =
    let n = s.store.next_txid in
    record {
      positive = omega (arith, i.positive);
      zero_unused =
          move_other n 0 Phase.counted s.phases (ground (arith, i.positive)) ∙ i.zero_unused;
      above_unused = λ m le.
          move_other n m Phase.counted s.phases (ground arith) ∙ i.above_unused m (omega arith);
      active = λ m.
          i.active m
          ∙ sym (
              live_same n m Phase.counted s.phases (ap is_running (i.above_unused n (omega arith)))
                refl);
      snapshots = Holds-move n Phase.counted s.phases tt i.snapshots;
    }

-- The snapshot that a step finds is exact.
held : (s : System) (n : ℕ) (p : Phase) → Inv s → s.phases n ≡ p → Holds n p
held s n p i h = subst (Holds n) h (i.snapshots n)

reads-Inv :
    (s : System) (n : ℕ)
    → Inv s
    → s.phases n ≡ Phase.counted
    → Inv (record s {
      phases =
          move_to n (Phase.pictured (begun n (read_active s.store)) (is_live s.phases)) s.phases;
    })
reads-Inv s n i h =
    let p = Phase.pictured (begun n (read_active s.store)) (is_live s.phases) in
    let (low, high) = given s n i (ap is_unused h) in
    moved-Inv s n p s.store i (ap is_unused h) refl (refl, refl, rw h (ground arith), i.active)
      (λ m. i.active m ∙ sym (live_same n m p s.phases (ap is_running h) refl))

registers-Inv :
    (s : System) (n : ℕ) (tx : Transaction) (seen : ℕ → Bool)
    → Inv s
    → s.phases n ≡ Phase.pictured tx seen
    → Inv (record {
      store = add_active s.store n;
      phases = move_to n (Phase.running tx seen) s.phases;
    })
unfolding add_active
registers-Inv s n tx seen i h =
    moved-Inv s n (Phase.running tx seen) (add_active s.store n) i (ap is_unused h) refl
      (held s n (Phase.pictured tx seen) i h)
      (λ m. contains-insert n m s.store.active_txns ∙ live_more m)
  where
    live_more :
        (m : ℕ)
        → (n == m) || contains s.store.active_txns m
          ≡ is_live (move_to n (Phase.running tx seen) s.phases) m
    live_more m = elim (Bool-cases (m == n)) [
      | inl e ↦ rw e (ground arith)
      | inr e ↦ rw (e, i.active m) (ground arith)
    ]

ends-Inv :
    (s : System) (n : ℕ) (tx : Transaction) (seen : ℕ → Bool)
    → Inv s
    → s.phases n ≡ Phase.running tx seen
    → Inv (record {
      store = record s.store { active_txns = NatSet.remove tx.tx_id s.store.active_txns };
      phases = move_to n Phase.ended s.phases;
    })
ends-Inv s n tx seen i h =
    let (low, high) = given s n i (ap is_unused h) in
    let (own, _, _, _) = held s n (Phase.running tx seen) i h in
    moved-Inv s n Phase.ended
      (record s.store { active_txns = NatSet.remove tx.tx_id s.store.active_txns }) i
      (ap is_unused h) refl tt
      (λ m. contains-remove tx.tx_id m s.store.active_txns ∙ live_less own low m)
  where
    live_less :
        tx.tx_id ≡ n
        → 1 ≤ n
        → (m : ℕ)
        → (if tx.tx_id == m then false else contains s.store.active_txns m)
          ≡ is_live (move_to n Phase.ended s.phases) m
    live_less own low m = elim (Bool-cases (m == n)) [
      | inl e ↦ rw e (ground arith)
      | inr e ↦ rw (e, i.active m) (ground arith)
    ]

Step-Inv : {s t : System} → Step s t → Inv s → Inv t
unfolding commit_transaction rollback_transaction
Step-Inv (counts s h) i = counts-Inv s h i
Step-Inv (reads s n h) i = reads-Inv s n i h
Step-Inv (registers s n tx seen h) i = registers-Inv s n tx seen i h
Step-Inv (commits s n tx seen h) i = ends-Inv s n tx seen i h
Step-Inv (rolls_back s n tx seen h) i = ends-Inv s n tx seen i h

Reach-Inv_from : {s t : System} → Inv s → Reach s t → Inv t
Reach-Inv_from i here = i
Reach-Inv_from i (next r st) = Step-Inv st (Reach-Inv_from i r)

-- In every state that a store reaches from its start, however the accesses of beginning, committing
-- and rolled back transactions interleave: the active set holds exactly the registered transactions
-- and the number 0; a transaction's snapshot holds exactly those that were registered when it was
-- read, and 0, but not the transaction itself; and 0 and the numbers from the
-- counter on are given to no transaction.
pub Reach-Inv : (start_id : ℕ) {s : System} → Reach (initial start_id) s → Inv s
Reach-Inv start_id r = Reach-Inv_from (initial-Inv start_id) r
