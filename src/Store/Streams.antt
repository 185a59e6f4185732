-- ===== src/Store/Streams.antt =====
-- Lemmas on the `entries` and `streams` tables of src/scnsim/workspace/operation_store.py.
use mathlib.Core.List.{map-append}
use scnsim.Base.{
  ℕ, zero, suc, ◌+◌, ◌≤◌, String, List, [], ◌∷◌, ◌++◌, map, ◌≡◌, refl, false, ◌||◌, arith,
  if◌then◌else◌,
}
use scnsim.Base.Eq.{◌==◌, nat_eq, string_eq}
use scnsim.Base.Dict.{contains}
use scnsim.Store.Database.{Entry}
use scnsim.Store.Snapshot.{select_entries, insert_sequence, order_sequence}
use scnsim.Store.Writes.{has_entry}

-- 1, 2, …, n
abbrev pub upto : ℕ → List ℕ
upto zero = []
upto (suc n) = upto n ++ suc n ∷ []

abbrev pub sequences : List Entry → List ℕ
sequences = map (λ (row : Entry). row.sequence)

pub select_entries-append :
    (stream : String) (rows : List Entry) (row : Entry)
    → select_entries stream (rows ++ row ∷ []) ≡ (
        if row.stream == stream
        then select_entries stream rows ++ row ∷ []
        else select_entries stream rows)
unfolding select_entries
select_entries-append stream [] row = ground arith
select_entries-append stream (r ∷ rows) row = ground (arith, select_entries-append stream rows row)

pub has_entry-sequences :
    (stream : String) (k : ℕ) (rows : List Entry)
    → has_entry stream k rows ≡ contains k (sequences (select_entries stream rows))
unfolding has_entry select_entries contains
has_entry-sequences stream k [] = refl
has_entry-sequences stream k (row ∷ rows) = ground (arith, has_entry-sequences stream k rows)

contains-append : (k j : ℕ) (s : List ℕ) → contains k (s ++ j ∷ []) ≡ (contains k s || (j == k))
unfolding contains
contains-append k j [] = ground arith
contains-append k j (i ∷ s) = ground (arith, contains-append k j s)

-- A number above n is not among the first n.
pub contains-upto_above : (n k : ℕ) → n ≤ k → contains (suc k) (upto n) ≡ false
unfolding contains
contains-upto_above zero k h = refl
contains-upto_above (suc n) k h =
    ground (arith, contains-append (suc k) (suc n) (upto n), contains-upto_above n k)

-- Rows that are in order already stay as they are.
abbrev IsAscending : List Entry → Type 0
IsAscending [] = Unit
IsAscending (row ∷ []) = Unit
IsAscending (row ∷ other ∷ rows) = (row.sequence ≤ other.sequence) × IsAscending (other ∷ rows)

order_sequence_ascending : (rows : List Entry) → IsAscending rows → order_sequence rows ≡ rows
unfolding order_sequence insert_sequence
order_sequence_ascending [] h = refl
order_sequence_ascending (row ∷ []) h = refl
order_sequence_ascending (row ∷ other ∷ rows) h =
    ground (arith, order_sequence_ascending (other ∷ rows) h.1)

-- The sequences m + 1, m + 2, … of ascending rows.
abbrev from : ℕ → ℕ → List ℕ
from m zero = []
from m (suc n) = suc m ∷ from (suc m) n

from-snoc : (m n : ℕ) → from m n ++ suc (m + n) ∷ [] ≡ from m (suc n)
from-snoc m zero = ground arith
from-snoc m (suc n) = ground (arith, from-snoc (suc m) n)

upto-from : (n : ℕ) → upto n ≡ from 0 n
upto-from zero = refl
upto-from (suc n) = ground (arith, upto-from n, from-snoc 0 n)

from-IsAscending : (m n : ℕ) (rows : List Entry) → sequences rows ≡ from m n → IsAscending rows
from-IsAscending m n [] h = tt
from-IsAscending m n (row ∷ []) h = tt
from-IsAscending m zero (row ∷ other ∷ rows) h = cc
from-IsAscending m (suc zero) (row ∷ other ∷ rows) h = ground arith
from-IsAscending m (suc (suc n)) (row ∷ other ∷ rows) h =
    (ground arith, from-IsAscending (suc m) (suc n) (other ∷ rows) (ground arith))

pub order_sequence-upto :
    (n : ℕ) (rows : List Entry) → sequences rows ≡ upto n → order_sequence rows ≡ rows
order_sequence-upto n rows h =
    order_sequence_ascending rows (from-IsAscending 0 n rows (ground (arith, upto-from n)))

pub upto-next : (m n : ℕ) → n ≡ m + 1 → upto n ≡ upto m ++ n ∷ []
upto-next m n h = let e : n ≡ suc m = omega arith in rw e

pub sequences-append :
    (rows : List Entry) (row : Entry)
    → sequences (rows ++ row ∷ []) ≡ sequences rows ++ row.sequence ∷ []
sequences-append rows row = map-append (λ (r : Entry). r.sequence) rows (row ∷ [])
