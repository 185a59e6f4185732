-- ===== src/Protocol/Reserved.antt =====
-- `_reserved_optimization_frame` of src/scnsim/execution/protocol.py against the checkpoint frames.
use scnsim.Base.{ℕ, String, [], ◌∷◌, ◌≡◌, refl, Bool, true, Option, none, some, arith}
use scnsim.Base.Eq.{string_eq}
use scnsim.Base.Dict.{lookup, contains}
use scnsim.Base.Int.{ℤ}
use scnsim.Protocol.Json.{
  null, boolean, integer, real, text, array, nested, Frame, Decoded, object, is_text, member,
}
use scnsim.Protocol.Frames.{decode_canonical_line}
use scnsim.Protocol.Ready.{
  validate_checkpoint_ready, checkpoint_holds, any_reserved, reserved_optimization_frame,
}

any_reserved_lem :
    (f : Frame)
    → member "event" (is_text "baseline_checkpoint_ready") f ≡ true
    → any_reserved f ≡ some true
unfolding member is_text any_reserved lookup contains
any_reserved_lem [] h = absurd (ground arith)
any_reserved_lem ((key, text s) ∷ f) h = ground (
  arith,
  any_reserved_lem f,
  string_eq.beq_iff key "event",
  string_eq.beq_iff s "baseline_checkpoint_ready",
)
any_reserved_lem ((key, array s) ∷ f) h = ground (arith, any_reserved_lem f)
any_reserved_lem ((key, nested b s) ∷ f) h = ground (arith, any_reserved_lem f)
any_reserved_lem ((key, null) ∷ f) h = ground (arith, any_reserved_lem f)
any_reserved_lem ((key, boolean b) ∷ f) h = ground (arith, any_reserved_lem f)
any_reserved_lem ((key, integer n) ∷ f) h = ground (arith, any_reserved_lem f)
any_reserved_lem ((key, real b) ∷ f) h = ground (arith, any_reserved_lem f)

module _ (loads : String → Option Decoded) (dumps : Frame → String)
    (loads_pairs : String → Option Decoded) where
  -- Decoding to pairs gives a canonical line's members as decoding to a dict does.
  abbrev pub PairsAgree : Type 0
  PairsAgree =
      (raw : String) (f : Frame)
      → decode_canonical_line loads dumps raw ≡ some f
      → loads_pairs raw ≡ some (object f)

module _ (integral : ℕ → Option ℤ) (loads : String → Option Decoded) (dumps : Frame → String)
    (loads_pairs : String → Option Decoded) (search : String → String → Bool) where
  checkpoint_holds-event :
      (request attempt : String) (f : Frame)
      → checkpoint_holds integral request attempt f ≡ true
      → member "event" (is_text "baseline_checkpoint_ready") f ≡ true
  unfolding checkpoint_holds
  checkpoint_holds-event request attempt f h = ground arith

  validate_checkpoint_ready-decodes :
      (request attempt raw : String) (f : Frame) (d : Option Frame)
      → decode_canonical_line loads dumps raw ≡ d
      → validate_checkpoint_ready integral loads dumps request attempt raw ≡ some f
      → (d ≡ some f) × (checkpoint_holds integral request attempt f ≡ true)
  unfolding validate_checkpoint_ready
  validate_checkpoint_ready-decodes request attempt raw f none e h = absurd (ground (arith, e))
  validate_checkpoint_ready-decodes request attempt raw f (some g) e h =
      (ground (arith, e), ground (arith, e))

  -- When decoding to pairs gives the members of a canonical line as decoding to a dict does,
  -- every line that _validate_checkpoint_ready accepts is a reserved frame for
  -- _reserved_optimization_frame.
  pub checkpoint_reserved :
      (request attempt raw : String) (f : Frame)
      → PairsAgree loads dumps loads_pairs
      → validate_checkpoint_ready integral loads dumps request attempt raw ≡ some f
      → reserved_optimization_frame loads_pairs search raw ≡ some true
  unfolding reserved_optimization_frame
  checkpoint_reserved request attempt raw f agree h =
      let (e, holds) = validate_checkpoint_ready-decodes request attempt raw f _ refl h in
      ground
        (arith, agree raw f e, any_reserved_lem f (checkpoint_holds-event request attempt f holds))
