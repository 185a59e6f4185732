-- ===== src/Tests/WireExamples.antt =====
-- The nets of src/scnsim/authoring/handles.py at concrete inputs.
use scnsim.Base.{◌≡◌, ◌⊎◌, ◌↔◌, refl, true, false, ◌||◌, ◌&&◌, arith, nat_beq}
use scnsim.Wire.Net.{Nets, no_nets, new_net, root, join}
use scnsim.Wire.Forest.{IsForest, root_of, find, depth-lt}
use scnsim.Wire.Create.{no_nets-IsForest, new_net-IsForest}
use scnsim.Wire.Root.{SameRoots, root_lem}
use scnsim.Wire.Merge.{join-Merges, SameWire, is_grounded, join-SameWire, join-is_grounded}

-- Net 0 is ground, nets 1 and 2 are wires.
abbrev three : Nets
three = (new_net false (new_net false (new_net true no_nets).1).1).1

three-IsForest : IsForest three
unfolding new_net
three-IsForest =
    new_net-IsForest (new_net false (new_net true no_nets).1).1
      (new_net-IsForest (new_net true no_nets).1 (new_net-IsForest no_nets no_nets-IsForest true)
        false)
      false

join-SameWire_example : SameWire (join 1 2 three).1 1 2 ↔ (
    SameWire three 1 2
    ⊎ ((SameWire three 1 1 × SameWire three 2 2) ⊎ (SameWire three 1 2 × SameWire three 2 1)))
unfolding new_net
join-SameWire_example =
    join-SameWire three three-IsForest 1 2 (omega arith) (omega arith) 1 2 (omega arith)
      (omega arith)

join-is_grounded_example : is_grounded (join 1 0 three).1 1 ≡ (
    is_grounded three 1
    || ((nat_beq (root_of three 1) (root_of three 1) || nat_beq (root_of three 1) (root_of three 0))
        && (is_grounded three 1 || is_grounded three 0)))
unfolding new_net
join-is_grounded_example =
    join-is_grounded three three-IsForest 1 0 (omega arith) (omega arith) 1 (omega arith)

root_lem_example :
    let (r, s) = root 3 2 (join 1 2 three).1 in
    (r ≡ root_of (join 1 2 three).1 2) × IsForest s × SameRoots (join 1 2 three).1 s
unfolding new_net
root_lem_example =
    let j = join-Merges three three-IsForest 1 2 (omega arith) (omega arith) in
    root_lem (join 1 2 three).1 j.forest 3 2 (omega (arith, j.size))
      (omega (arith, j.size, depth-lt (join 1 2 three).1 j.forest 2 (omega (arith, j.size))))

-- The join of a wire with ground grounds the whole wire.
grounds_the_wire :
    let s = (join 2 0 (join 1 2 three).1).1 in
    (root_of s 1 ≡ 0) × (root_of s 2 ≡ 0) × (is_grounded s 1 ≡ true)
unfolding new_net join root root_of find is_grounded
grounds_the_wire = (refl, refl, refl)
