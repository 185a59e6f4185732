-- ===== src/Wire/Net.antt =====
-- `class _Net` of src/scnsim/authoring/handles.py. The nets live in a store: a net is its number,
-- and `parent` and `ground` are the objects' attributes. The label is only shown, never read.
use scnsim.Base.{ℕ, zero, suc, ◌+◌, Bool, false, if◌then◌else◌, nat_beq}

pub record Nets : Type 0 where
  pub size : ℕ
  pub parent : ℕ → ℕ
  pub ground : ℕ → Bool

-- An assignment to one object's attribute.
abbrev pub update {ℓ} : {A : Type ℓ} → (ℕ → A) → ℕ → A → ℕ → A
update f k v i = if nat_beq i k then v else f i

abbrev pub no_nets : Nets
no_nets = record { size = 0; parent = λ i. i; ground = λ i. false }

-- `_Net(label, ground)`: a new object is its own parent.
unfoldable pub new_net : Bool → Nets → ℕ × Nets
new_net g s = (
  s.size,
  record {
    size = s.size + 1;
    parent = update s.parent s.size s.size;
    ground = update s.ground s.size g;
  },
)

abbrev pub set_parent : ℕ → ℕ → Nets → Nets
set_parent n p s = record s { parent = update s.parent n p }

-- `root`, on fuel for Python's recursion: the root, and the store with the path compressed.
unfoldable pub root : ℕ → ℕ → Nets → ℕ × Nets
root zero n s = (n, s)
root (suc fuel) n s =
    let rest : ℕ × Nets = root fuel (s.parent n) s in
    if nat_beq (s.parent n) n then (n, s) else (rest.0, set_parent n rest.0 rest.1)

-- The branches of `join`, at the two roots.
abbrev pub link_roots : ℕ → ℕ → Nets → ℕ × Nets
link_roots left right s =
    if nat_beq left right
    then (left, s)
    else if s.ground right
    then (right, set_parent left right s)
    else (left, set_parent right left s)

-- `join`. The fuel is the number of nets.
unfoldable pub join : ℕ → ℕ → Nets → ℕ × Nets
unfolding root
join a b s =
    let (left, s1) = root s.size a s in
    let (right, s2) = root s1.size b s1 in link_roots left right s2
