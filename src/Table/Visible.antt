-- ===== src/Table/Visible.antt =====
-- Which versions a snapshot sees, and that a scan agrees with the lookup of single rows.
use heliondb.Base.{
  ℕ, zero, suc, ◌+◌, ◌≤◌, ◌<◌, Bool, Option, none, some, List, [], ◌∷◌, map, retain, length, ◌≡◌,
  refl, if◌then◌else◌, ◌==◌, get_elem?, arith,
}
use heliondb.Base.NatSet.{NatSet}
use heliondb.Types.Column.{Row}
use heliondb.Table.{
  Table, RowVersion, Chain, latest_visible, scan_chains, scan_visible, visible_in,
  get_visible_version,
}

-- The row that a list of numbered rows has under a number.
abbrev pub row_at : ℕ → List (ℕ × Row) → Option Row
row_at i [] = none
row_at i ((j, r) ∷ rows) = if j == i then some r else row_at i rows

abbrev pub row_of : Option RowVersion → Option Row
row_of none = none
row_of (some v) = some v.row

pub latest_visible-nil : (s : ℕ) (active : NatSet) → latest_visible [] s active ≡ none
unfolding latest_visible
latest_visible-nil s active = refl

scan-above :
    (i idx : ℕ) (chains : List Chain) (s : ℕ) (active : NatSet)
    → i < idx
    → row_at i (scan_chains idx chains s active) ≡ none
unfolding scan_chains
scan-above i idx [] s active h = refl
scan-above i idx (c ∷ chains) s active h = ground (arith, scan-above i (suc idx) chains s active)

scan-row_at :
    (i idx : ℕ) (chains : List Chain) (s : ℕ) (active : NatSet)
    → row_at (idx + i) (scan_chains idx chains s active)
      ≡ row_of (visible_in (get_elem? chains i) s active)
unfolding scan_chains visible_in
scan-row_at i idx [] s active = refl
scan-row_at zero idx (c ∷ chains) s active =
    ground (arith, scan-above idx (suc idx) chains s active)
scan-row_at (suc i) idx (c ∷ chains) s active =
    ground (arith, scan-row_at i (suc idx) chains s active)

-- The numbers of a list of rows increase, from `l` on.
abbrev pub Ascends : ℕ → List (ℕ × Row) → Type 0
Ascends l [] = Unit
Ascends l ((j, r) ∷ rows) = (l ≤ j) × Ascends (suc j) rows

Ascends-mono : (k l : ℕ) (rows : List (ℕ × Row)) → k ≤ l → Ascends l rows → Ascends k rows
Ascends-mono k l [] h a = tt
Ascends-mono k l ((j, r) ∷ rows) h a = (omega arith, a.1)

scan-Ascends :
    (idx : ℕ) (chains : List Chain) (s : ℕ) (active : NatSet)
    → Ascends idx (scan_chains idx chains s active)
unfolding scan_chains
scan-Ascends idx [] s active = tt
scan-Ascends idx (c ∷ chains) s active = ground (
  arith,
  scan-Ascends (suc idx) chains s active,
  Ascends-mono idx (suc idx) (scan_chains (suc idx) chains s active),
)

-- The numbers of a list increase, from `l` on, and lie below `n`.
abbrev pub Within {ℓ} : {A : Type ℓ} → ℕ → ℕ → List (ℕ × A) → Type 0
Within l n [] = Unit
Within l n ((j, x) ∷ xs) = (l ≤ j) × (j < n) × Within (suc j) n xs

pub Within-mono {ℓ} :
    {A : Type ℓ} (k l n : ℕ) (xs : List (ℕ × A)) → k ≤ l → Within l n xs → Within k n xs
Within-mono k l n [] h w = tt
Within-mono k l n ((j, x) ∷ xs) h w = (omega (arith, w.0), w.1, w.2)

pub Within-retain {ℓ} :
    {A : Type ℓ} (p : ℕ × A → Bool) (l n : ℕ) (xs : List (ℕ × A))
    → Within l n xs
    → Within l n (retain p xs)
Within-retain p l n [] w = tt
Within-retain p l n ((j, x) ∷ xs) w =
    let rest = Within-retain p (suc j) n xs w.2 in
    ground (arith, w.0, w.1, rest, Within-mono l (suc j) n (retain p xs))

pub Within-map {ℓ κ} :
    {A : Type ℓ} {B : Type κ} (f : ℕ × A → B) (l n : ℕ) (xs : List (ℕ × A))
    → Within l n xs
    → Within l n (map (λ x. (x.0, f x)) xs)
Within-map f l n [] w = tt
Within-map f l n ((j, x) ∷ xs) w = (w.0, w.1, Within-map f (suc j) n xs w.2)

scan-Within :
    (idx n : ℕ) (chains : List Chain) (s : ℕ) (active : NatSet)
    → idx + length chains ≡ n
    → Within idx n (scan_chains idx chains s active)
unfolding scan_chains
scan-Within idx n [] s active h = tt
scan-Within idx n (c ∷ chains) s active h =
    let rest : Within (suc idx) n (scan_chains (suc idx) chains s active) =
      scan-Within (suc idx) n chains s active (omega arith) in
    ground (arith, rest, Within-mono idx (suc idx) n (scan_chains (suc idx) chains s active))

-- A scan lists rows that are there, by increasing number.
pub scan_visible-Within :
    (t : Table) (s : ℕ) (active : NatSet)
    → Within 0 (length t.version_chains) (scan_visible t s active)
unfolding scan_visible
scan_visible-Within t s active =
    scan-Within 0 (length t.version_chains) t.version_chains s active (omega arith)

-- A scan lists the rows by increasing number, under each number the row that the lookup of this
-- number finds, and none where the lookup finds none.
pub scan_visible-row_at :
    (t : Table) (s : ℕ) (active : NatSet)
    → Ascends 0 (scan_visible t s active)
      × ((i : ℕ) → row_at i (scan_visible t s active) ≡ row_of (get_visible_version t i s active))
unfolding scan_visible get_visible_version
scan_visible-row_at t s active = (
  scan-Ascends 0 t.version_chains s active,
  λ i. ground (arith, scan-row_at i 0 t.version_chains s active),
)
